-- ===== src/Tests/Database.antt =====
-- A collection as a list of documents, with calls that behave as documented.
use netsentry_sensor.Common.{
  ◌≡◌, refl, Bool, ◌&&◌, none, some, Option, List, [], ◌∷◌, any, count, keep, arith, if◌then◌else◌,
  Bool-cases, inl, inr,
}
use netsentry_sensor.Common.Outcome.{ok}
use netsentry_sensor.NetworkFilter.Api.Documents.{
  PersistentBlockedIp, Database, IsDatabase, Updated,
}

abbrev pub Documents : Type 0
Documents = List PersistentBlockedIp

-- the first document that matches; the newest stands first
abbrev pub update_first :
    (PersistentBlockedIp → Bool)
    → (PersistentBlockedIp → PersistentBlockedIp)
    → Documents
    → Documents
update_first test set [] = []
update_first test set (x ∷ xs) =
    let rest = update_first test set xs in if test x then set x ∷ xs else x ∷ rest

abbrev first : (PersistentBlockedIp → Bool) → Documents → Option PersistentBlockedIp
first test [] = none
first test (x ∷ xs) = let rest = first test xs in if test x then some x else rest

abbrev pub database : Database Documents
database = record {
  insert_one = λ x d. (ok tt, x ∷ d);
  update_newest = λ test set d. (ok tt, update_first test set d);
  find = λ test d. ok (record { documents = keep test d; failure = none });
  find_newest = λ test d. ok (record { documents = keep test d; failure = none });
  find_one = λ test d. ok (first test d);
}

update_first-Updated :
    (test : PersistentBlockedIp → Bool) (set : PersistentBlockedIp → PersistentBlockedIp)
    (d : Documents)
    → Updated test set d (update_first test set d)
unfolding any count
update_first-Updated test set [] = Updated.unmatched refl refl
update_first-Updated test set (x ∷ xs) = elim (Bool-cases (test x)) [
  | inl t ↦ Updated.changed x t (λ p. ground (arith, t))
  | inr f ↦ elim (update_first-Updated test set xs) [
    | Updated.unmatched a b ↦ Updated.unmatched (ground (arith, f, a)) (ground (arith, f, b))
    | Updated.changed y t counts ↦ Updated.changed y t (λ p. ground (arith, f, counts p))
  ]
]

count-keep :
    (test p : PersistentBlockedIp → Bool) (d : Documents)
    → count p (keep test d) ≡ count (λ x. test x && p x) d
unfolding count keep
count-keep test p [] = refl
count-keep test p (x ∷ xs) = ground (arith, count-keep test p xs)

pub database-IsDatabase : IsDatabase database (λ d. d)
unfolding count
database-IsDatabase = record {
  inserts = λ x d p e. ground arith;
  updates = λ test set d e. update_first-Updated test set d;
  finds_newest = λ test p d c e whole. ground (arith, e, whole, count-keep test p d);
  finds = λ test p d c e whole. ground (arith, e, whole, count-keep test p d);
}
