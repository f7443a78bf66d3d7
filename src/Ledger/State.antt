-- ===== src/Ledger/State.antt =====
-- The tables, and the last row id that AUTOINCREMENT gave in each.
use sprintctl.Prelude.{ℕ, Bool, false, List, []}
use sprintctl.Domain.{Sprint, Track, Item, Decision, Dep, Ref, Release, Reservation, Event}

pub record Sequences : Type 0 where
  pub sprint : ℕ
  pub track : ℕ
  pub item : ℕ
  pub decision : ℕ
  pub dep : ℕ
  pub ref : ℕ
  pub release : ℕ
  pub reservation : ℕ
  pub event : ℕ

pub record Ledger : Type 0 where
  pub sprints : List Sprint
  pub tracks : List Track
  pub items : List Item
  pub decisions : List Decision
  pub deps : List Dep
  pub refs : List Ref
  pub releases : List Release
  pub reservations : List Reservation
  pub events : List Event
  pub last : Sequences
  pub clock : ℕ
  pub maintenance : Bool

abbrev pub empty : Ledger
empty = record {
  sprints = [];
  tracks = [];
  items = [];
  decisions = [];
  deps = [];
  refs = [];
  releases = [];
  reservations = [];
  events = [];
  last = record {
    sprint = 0;
    track = 0;
    item = 0;
    decision = 0;
    dep = 0;
    ref = 0;
    release = 0;
    reservation = 0;
    event = 0;
  };
  clock = 0;
  maintenance = false;
}
