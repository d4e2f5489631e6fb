-- ===== src/Collector/Debug/Window.antt =====
-- The recent commands are a window on the log of all commands.
use netsentry_sensor.Common.{
  map, sym, ℕ, zero, suc, ◌-◌, ◌≤◌, ◌<◌, ◌≡◌, refl, ap, ◌∙◌, true, false, List, [], ◌∷◌, ◌++◌,
  arith, length, length-append, drop, pop_front, leb, Bool-cases, inl, inr,
}
use mathlib.Core.List.{append-nil, append_assoc}
use netsentry_sensor.Common.Text.{Text}
use netsentry_sensor.Collector.Debug.{DebugCommand, WsDebugState, new, push_bounded, record_command}

module _ {A : Type 0} where
  drop-append_one :
      (k : ℕ) (xs : List A) (x : A) → k ≤ length xs → drop k (xs ++ x ∷ []) ≡ drop k xs ++ x ∷ []
  drop-append_one zero xs x h = refl
  drop-append_one (suc k) [] x h = absurd (omega arith)
  drop-append_one (suc k) (y ∷ xs) x h = drop-append_one k xs x (omega arith)

  pop_front-drop : (k : ℕ) (xs : List A) → pop_front (drop k xs) ≡ drop (suc k) xs
  pop_front-drop zero [] = refl
  pop_front-drop zero (x ∷ xs) = refl
  pop_front-drop (suc k) [] = refl
  pop_front-drop (suc k) (x ∷ xs) = pop_front-drop k xs

  length-drop : (k : ℕ) (xs : List A) → length (drop k xs) ≡ length xs - k
  length-drop zero xs = omega arith
  length-drop (suc k) [] = omega arith
  length-drop (suc k) (x ∷ xs) = omega (arith, length-drop k xs)

  -- the last `n` elements
  abbrev pub last_of : ℕ → List A → List A
  last_of n xs = drop (length xs - n) xs

  last_of_all : (n : ℕ) (xs : List A) → length xs ≤ n → last_of n xs ≡ xs
  last_of_all n xs h = let e : length xs - n ≡ 0 = omega arith in ap (λ k. drop k xs) e

  push_full :
      (n : ℕ) (x : A) (xs : List A)
      → 0 < n
      → n ≤ length xs
      → push_bounded n x (last_of n xs) ≡ last_of n (xs ++ x ∷ [])
  unfolding push_bounded
  push_full n x xs pos h =
      let full : leb n (length (last_of n xs)) ≡ true =
        ground (arith, length-drop (length xs - n) xs) in
      let step : length (xs ++ x ∷ []) - n ≡ suc (length xs - n) =
        omega (arith, length-append xs (x ∷ [])) in
      let inside : suc (length xs - n) ≤ length xs = omega arith in
      rw full (
        rw step (
          ap (λ ys. ys ++ x ∷ []) (pop_front-drop (length xs - n) xs)
          ∙ sym (drop-append_one (suc (length xs - n)) xs x inside)))

  push_room :
      (n : ℕ) (x : A) (xs : List A)
      → length xs < n
      → push_bounded n x (last_of n xs) ≡ last_of n (xs ++ x ∷ [])
  unfolding push_bounded
  push_room n x xs h =
      let room : leb n (length xs) ≡ false = ground arith in
      let fits : length (xs ++ x ∷ []) ≤ n = omega (arith, length-append xs (x ∷ [])) in
      ap (push_bounded n x) (last_of_all n xs (omega arith))
      ∙ ground (arith, room)
      ∙ sym (last_of_all n (xs ++ x ∷ []) fits)

  push_bounded-last_of :
      (n : ℕ) (x : A) (xs : List A)
      → 0 < n
      → push_bounded n x (last_of n xs) ≡ last_of n (xs ++ x ∷ [])
  unfolding push_bounded
  push_bounded-last_of n x xs pos = elim (Bool-cases (leb n (length xs))) [
    | inl full ↦ push_full n x xs pos (ground (arith, full))
    | inr room ↦ push_room n x xs (ground (arith, room))
  ]

pub record Report : Type 0 where
  pub at : ℕ
  pub command : DebugCommand

unfoldable pub run_commands : List Report → WsDebugState → WsDebugState
unfolding record_command
run_commands [] d = d
run_commands (r ∷ rs) d =
    let c = r.command in
    run_commands rs (record_command r.at c.received_at c.cmd_type c.ip c.reason c.success d)

abbrev pub log : List Report → List DebugCommand
log rs = map (λ r. r.command) rs

run_commands-from :
    (rs : List Report) (d : WsDebugState) (past : List DebugCommand)
    → d.recent_commands ≡ last_of 50 past
    → (run_commands rs d).recent_commands ≡ last_of 50 (past ++ log rs)
unfolding run_commands record_command
run_commands-from [] d past h = h ∙ ap (last_of 50) (sym (append-nil past))
run_commands-from (r ∷ rs) d past h =
    let here : push_bounded 50 r.command d.recent_commands ≡ last_of 50 (past ++ r.command ∷ []) =
      ap (push_bounded 50 r.command) h ∙ push_bounded-last_of 50 r.command past (omega arith) in
    run_commands-from rs _ (past ++ r.command ∷ []) here
    ∙ ap (last_of 50) (append_assoc past (r.command ∷ []) (log rs))

-- After any sequence of commands from a fresh state, `recent_commands` holds the last fifty of them
-- in the order they came, fewer when fewer came.
pub run_commands-recent :
    (url nf : Text) (rs : List Report)
    → (run_commands rs (new url nf)).recent_commands ≡ last_of 50 (log rs)
unfolding new
run_commands-recent url nf rs = run_commands-from rs (new url nf) [] refl
