-- ===== src/NetworkFilter/Api/Counts.antt =====
-- The number of blocks that the statistics report.
use netsentry_sensor.Common.{
  ℕ, ◌≡◌, ◌∙◌, Bool, true, none, List, [], ◌∷◌, ◌&&◌, map, length, count, arith, refl,
}
use netsentry_sensor.Common.Outcome.{ok}
use netsentry_sensor.Forwarder.Service.{Calendar}
use netsentry_sensor.NetworkFilter.Api.Documents.{
  PersistentBlockedIp, Cursor, Database, IsDatabase, is_active,
}
use netsentry_sensor.NetworkFilter.Api.Handlers.{list_blocked_ips, get_prevention_stats}
use netsentry_sensor.NetworkFilter.Api.Messages.{PreventionStats, info_of}
use netsentry_sensor.NetworkFilter.State.{World}

length-map : {A B : Type 0} (f : A → B) (xs : List A) → length (map f xs) ≡ length xs
length-map f [] = refl
length-map f (x ∷ xs) = ground (arith, length-map f xs)

length-count : {A : Type 0} (xs : List A) → length xs ≡ count (λ x. true) xs
unfolding count
length-count [] = refl
length-count (x ∷ xs) = ground (arith, length-count xs)

count-and_true :
    {A : Type 0} (p : A → Bool) (xs : List A) → count (λ x. p x && true) xs ≡ count p xs
unfolding count
count-and_true p [] = refl
count-and_true p (x ∷ xs) = ground (arith, count-and_true p xs)

module _ {K F D : Type 0} (calendar : Calendar) (db : Database D)
    (documents : D → List PersistentBlockedIp) (h : IsDatabase db documents) (now : ℕ)
    (w : World K F) (d : D) where
  -- Where the database answers in full, the statistics report as many blocks as it has active
  -- documents, whether or not their time is over.
  pub get_prevention_stats-active :
      (c : Cursor)
      → db.find_newest is_active d ≡ ok c
      → c.failure ≡ none
      → (s : PreventionStats) × (get_prevention_stats calendar db now w d ≡ ok s)
        × (s.total_blocked ≡ count is_active (documents d))
  unfolding get_prevention_stats list_blocked_ips
  get_prevention_stats-active c found whole = (
    record {
      total_blocked = length (map info_of c.documents);
      total_trusted = w.filter.stats.fast_tracked_packets;
      total_processed = w.filter.stats.total_packets;
      blocked_ips = map info_of c.documents;
    },
    ground (arith, found, whole),
    length-map info_of c.documents
        ∙ length-count c.documents
        ∙ h.finds_newest is_active (λ x. true) d c found whole
        ∙ count-and_true is_active (documents d),
  )
