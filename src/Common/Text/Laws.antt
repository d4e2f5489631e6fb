-- ===== src/Common/Text/Laws.antt =====
-- Laws of trimming and of lines.
use Prim.Native.Nat.{ℕ}
use mathlib.Core.Path.{◌≡◌, refl, ap, ◌∙◌}
use mathlib.Core.Logic.{◌≢◌}
use mathlib.Core.Bool.{false}
use mathlib.Core.List.{
  List, [], ◌∷◌, ◌++◌, reverse, append_assoc, reverse-append, reverse-cons, reverse-reverse,
}
use native.Mathlib.Omega.{arith}
use netsentry_sensor.Common.Lists.{All, All-append}
use netsentry_sensor.Common.Text.Equality.{Text}
use netsentry_sensor.Common.Text.Slices.{
  is_whitespace, trim_start, trim_end, trim, lines, cons_head, join, unlines,
}

trim_start_idem : (s : Text) → trim_start (trim_start s) ≡ trim_start s
unfolding trim_start
trim_start_idem [] = refl
trim_start_idem (c ∷ s) = ground (arith, trim_start_idem s)

trim_start-snoc :
    (s : Text) (c : ℕ) → is_whitespace c ≡ false → trim_start (s ++ c ∷ []) ≡ trim_start s ++ c ∷ []
unfolding trim_start
trim_start-snoc [] c h = rw h
trim_start-snoc (d ∷ s) c h = ground (arith, trim_start-snoc s c h)

-- a text whose first character stays keeps it when its end is trimmed
trim_end-cons : (c : ℕ) (s : Text) → is_whitespace c ≡ false → trim_end (c ∷ s) ≡ c ∷ trim_end s
unfolding trim_end
trim_end-cons c s h = rw (reverse-cons, trim_start-snoc (reverse s) c h, reverse-append)

trim_start-trim_end : (s : Text) → trim_start (trim_end (trim_start s)) ≡ trim_end (trim_start s)
unfolding trim_start
trim_start-trim_end [] = unfold trim_end in refl
trim_start-trim_end (c ∷ s) = ground (arith, trim_start-trim_end s, trim_end-cons c s)

trim_end_idem : (s : Text) → trim_end (trim_end s) ≡ trim_end s
unfolding trim_end
trim_end_idem s = rw (reverse-reverse, trim_start_idem)

pub trim_idem : (s : Text) → trim (trim s) ≡ trim s
unfolding trim
trim_idem s = rw (trim_start-trim_end s) (trim_end_idem (trim_start s))

module _ (P : ℕ → Type 0) where
  All-reverse : (s : Text) → All P s → All P (reverse s)
  All-reverse [] h = tt
  All-reverse (c ∷ s) (p, h) = rw reverse-cons (All-append P _ _ (All-reverse s h) (p, tt))

  All-trim_start : (s : Text) → All P s → All P (trim_start s)
  unfolding trim_start
  All-trim_start [] h = tt
  All-trim_start (c ∷ s) (p, h) = ground (arith, All-trim_start s h)

  -- what holds of every character holds of those that trimming leaves
  pub All-trim : (s : Text) → All P s → All P (trim s)
  unfolding trim trim_end
  All-trim s h = All-reverse _ (All-trim_start _ (All-reverse _ (All-trim_start s h)))

abbrev pub IsClean : ℕ → Type 0
IsClean c = (c ≢ b'\n') × (c ≢ b'\r')

-- a text of one line, with no carriage return
abbrev pub IsLine : Text → Type 0
IsLine l = All IsClean l

lines-append : (l rest : Text) → IsLine l → lines (l ++ b'\n' ∷ rest) ≡ l ∷ lines rest
unfolding lines
lines-append [] rest h = ground arith
lines-append (c ∷ l) rest (p, h) = ground (arith, lines-append l rest h)

pub lines-unlines : (ls : List Text) → All IsLine ls → lines (unlines ls) ≡ ls
unfolding unlines
lines-unlines [] h = unfold lines in refl
lines-unlines (l ∷ ls) (p, h) = rw (lines-append l _ p, lines-unlines ls h)

cons_head-IsLine :
    (c : ℕ) (ls : List Text) → IsClean c → All IsLine ls → All IsLine (cons_head c ls)
cons_head-IsLine c [] p h = ((p, tt), tt)
cons_head-IsLine c (l ∷ ls) p (q, h) = ((p, q), h)

-- the lines of a text with no carriage return
pub lines-IsLine : (s : Text) → All (λ c. c ≢ b'\r') s → All IsLine (lines s)
unfolding lines
lines-IsLine [] h = tt
lines-IsLine (c ∷ s) (p, h) = ground (arith, lines-IsLine s h, cons_head-IsLine c (lines s))

pub join-unlines :
    (l : Text) (ls : List Text) → join (b'\n' ∷ []) (l ∷ ls) ++ b'\n' ∷ [] ≡ unlines (l ∷ ls)
unfolding join unlines
join-unlines l [] = refl
join-unlines l (m ∷ ls) = rw append_assoc (ap (λ t. l ++ b'\n' ∷ t) (join-unlines m ls))

trim_start-solid : (s : Text) → All (λ c. is_whitespace c ≡ false) s → trim_start s ≡ s
unfolding trim_start
trim_start-solid [] h = refl
trim_start-solid (c ∷ s) (p, h) = rw p

-- a text with no white space has none to trim
pub trim-solid : (s : Text) → All (λ c. is_whitespace c ≡ false) s → trim s ≡ s
unfolding trim trim_end
trim-solid s h =
    rw (trim_start-solid s h)
      (ap reverse (trim_start-solid (reverse s) (All-reverse _ s h)) ∙ reverse-reverse s)
