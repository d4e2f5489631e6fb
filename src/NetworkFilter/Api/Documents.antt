-- ===== src/NetworkFilter/Api/Documents.antt =====
-- network-filter/src/models/mod.rs: the documents of the database of blocks, and the database, which
-- is a parameter.
use netsentry_sensor.Common.{ℕ, ◌+◌, ◌≡◌, Bool, true, false, ◌&&◌, Option, List, count, any}
use netsentry_sensor.Common.Outcome.{Result, ok}
use netsentry_sensor.Common.Text.{Text, text_eq}

-- Dates of the database are in milliseconds since 1970.
pub record PersistentBlockedIp : Type 0 where
  pub ip : Text
  pub reason : Text
  pub threat_level : ℕ
  pub blocked_at : Text
  pub expires_at : Text
  pub source : Text
  pub active : Bool
  pub blocked_at_dt : Option ℕ
  pub expires_at_dt : Option ℕ
  pub unblocked_at_dt : Option ℕ
  pub unblock_reason : Option Text
  pub dns_names : List Text
  pub associated_domains : List Text

-- What a cursor yields: documents, and then perhaps an error.
pub record Cursor : Type 0 where
  pub documents : List PersistentBlockedIp
  pub failure : Option Text

-- The collection `blocked_ips`: a test stands for a filter, a function for `$set`. `update_newest` is
-- `update_one` with the sort by `blocked_at_dt`, `find_newest` is `find` with it.
pub record Database (D : Type 0) : Type 0 where
  pub insert_one : PersistentBlockedIp → D → Result (Unit {0}) Text × D
  pub update_newest :
      (PersistentBlockedIp → Bool)
      → (PersistentBlockedIp → PersistentBlockedIp)
      → D
      → Result (Unit {0}) Text × D
  pub find : (PersistentBlockedIp → Bool) → D → Result Cursor Text
  pub find_newest : (PersistentBlockedIp → Bool) → D → Result Cursor Text
  pub find_one : (PersistentBlockedIp → Bool) → D → Result (Option PersistentBlockedIp) Text

-- `doc! { "active": true }`
abbrev pub is_active : PersistentBlockedIp → Bool
is_active x = x.active

-- `doc! { "ip": &ip, "active": true }`
abbrev pub is_active_for : Text → PersistentBlockedIp → Bool
is_active_for ip x = text_eq x.ip ip && x.active

-- the document after an unblock
abbrev pub deactivated : (now_ms : ℕ) (reason : Text) → PersistentBlockedIp → PersistentBlockedIp
deactivated now_ms reason x = record x {
  active = false;
  unblocked_at_dt = Option.some now_ms;
  unblock_reason = Option.some reason;
}

abbrev pub bit : Bool → ℕ
bit true = 1
bit false = 0

-- What an update of one document did: nothing where none matches, or the change of one that matches.
pub data Updated (test : PersistentBlockedIp → Bool)
    (set : PersistentBlockedIp → PersistentBlockedIp) (before after : List PersistentBlockedIp)
    : Type 0 where
  unmatched : any test before ≡ false → after ≡ before → Updated test set before after
  changed :
      (x : PersistentBlockedIp)
      → test x ≡ true
      → ((p : PersistentBlockedIp → Bool)
          → count p after + bit (p x) ≡ count p before + bit (p (set x)))
      → Updated test set before after

-- The documented behaviour of the calls that succeed: `documents` are those stored. Order is left
-- open, so documents are compared by how many pass a test.
pub record IsDatabase {D : Type 0} (db : Database D) (documents : D → List PersistentBlockedIp)
    : Type 0 where
  pub inserts :
      (x : PersistentBlockedIp) (d : D) (p : PersistentBlockedIp → Bool)
      → (db.insert_one x d).0 ≡ ok tt
      → count p (documents (db.insert_one x d).1) ≡ count p (documents d) + bit (p x)
  pub updates :
      (test : PersistentBlockedIp → Bool) (set : PersistentBlockedIp → PersistentBlockedIp) (d : D)
      → (db.update_newest test set d).0 ≡ ok tt
      → Updated test set (documents d) (documents (db.update_newest test set d).1)
  pub finds_newest :
      (test p : PersistentBlockedIp → Bool) (d : D) (c : Cursor)
      → db.find_newest test d ≡ ok c
      → c.failure ≡ Option.none
      → count p c.documents ≡ count (λ x. test x && p x) (documents d)
  pub finds :
      (test p : PersistentBlockedIp → Bool) (d : D) (c : Cursor)
      → db.find test d ≡ ok c
      → c.failure ≡ Option.none
      → count p c.documents ≡ count (λ x. test x && p x) (documents d)
