-- ===== src/Controller/History.antt =====
-- Histories of the front end: activations that are scheduled, and results that come in.
use seuss.Prelude.{
  ℕ, suc, ◌+◌, ◌≡◌, refl, ap, sym, subst, Option, none, some, inl, inr, List, [], ◌∷◌, nat_eq, ◌==◌,
  if◌then◌else◌, Bytes, Result, ok, ◌>>=◌, >>=-eq-ok, arith, Option-cases,
}
use seuss.Prelude.Int.{ℤ}
use seuss.Table.{Table, find, erase, IsDistinct, erase_absent, erase-IsDistinct}
use seuss.Invocation.{InvocationStats}
use seuss.Openwhisk.Msg.{ActivationMessage, CompletionMessage}
use seuss.Controller.Defs.{ActivationRecord, Controller, schedule_with_code, resolve_activation}
use seuss.Controller.Records.{schedule_adds, resolve_known, resolve_unknown}

abbrev pub Fulfilled : Type 0
Fulfilled = List (ℕ × CompletionMessage)

pub data Call : Type 0 where
  schedule : (now promise : ℕ) → ActivationMessage → (code : Bytes) → Call
  resolve : (now : ℕ) → InvocationStats → (res : Bytes) → Call

abbrev pub with_result : Option (ℕ × CompletionMessage) → Fulfilled → Fulfilled
with_result none fs = fs
with_result (some f) fs = f ∷ fs

module _ (hash : Bytes → ℕ) (nid_text : ℕ → Bytes) (instance₀ status₀ : ℤ) where
  -- The promises that a history fulfils, in order, with their values.
  unfoldable pub run : Controller → List Call → Result (Controller × Fulfilled)
  run c [] = ok (c, [])
  run c (schedule now promise am code ∷ cs) = do
    (c', out) ← schedule_with_code hash nid_text now promise c am code
    run c' cs
  run c (resolve now istats res ∷ cs) = do
    let (c', f) = resolve_activation instance₀ status₀ now c istats res
    (c'', fs) ← run c' cs
    ok (c'', with_result f fs)

-- How often a promise waits, is fulfilled, and is handed in.
abbrev pub waiting : ℕ → Table ℕ ActivationRecord → ℕ
waiting p [] = 0
waiting p ((tid, entry) ∷ m) = if entry.promise == p then suc (waiting p m) else waiting p m

abbrev pub fulfilled : ℕ → Fulfilled → ℕ
fulfilled p [] = 0
fulfilled p ((q, cm) ∷ fs) = if q == p then suc (fulfilled p fs) else fulfilled p fs

abbrev pub scheduled : ℕ → List Call → ℕ
scheduled p [] = 0
scheduled p (schedule now q am code ∷ cs) = if q == p then suc (scheduled p cs) else scheduled p cs
scheduled p (resolve now istats res ∷ cs) = scheduled p cs

waiting-erase :
    (p k : ℕ) (entry : ActivationRecord) (m : Table ℕ ActivationRecord)
    → IsDistinct m
    → find k m ≡ some entry
    → waiting p m ≡ waiting p ((k, entry) ∷ erase k m)
unfolding find erase
waiting-erase p k entry [] d e = cc
waiting-erase p k entry ((j, other) ∷ m) d e =
    ground (arith, waiting-erase p k entry m d.1, erase_absent k m)

resolve_step :
    (instance₀ status₀ : ℤ) (p now : ℕ) (c : Controller) (istats : InvocationStats) (res : Bytes)
    (fs : Fulfilled)
    → IsDistinct c.record_map
    → IsDistinct (resolve_activation instance₀ status₀ now c istats res).0.record_map
      × (waiting p (resolve_activation instance₀ status₀ now c istats res).0.record_map
            + fulfilled p (with_result (resolve_activation instance₀ status₀ now c istats res).1 fs)
          ≡ waiting p c.record_map + fulfilled p fs)
resolve_step instance₀ status₀ p now c istats res fs d =
    elim (Option-cases (find istats.transaction_id c.record_map)) [
      | inl unknown ↦ rw (resolve_unknown instance₀ status₀ now c istats res unknown) (d, refl)
      | inr (entry, at) ↦ rw (resolve_known instance₀ status₀ now c istats res at) (
        erase-IsDistinct istats.transaction_id c.record_map d,
        ground (arith, waiting-erase p istats.transaction_id entry c.record_map d at),
      )
    ]

module _ (hash : Bytes → ℕ) (nid_text : ℕ → Bytes) (instance₀ status₀ : ℤ) (p : ℕ) where
  -- Whatever activations are scheduled and whatever results come in, known or not, repeated or not:
  -- each promise is fulfilled or waits exactly as often as it was handed in or waited before.
  pub run-promises :
      (c c' : Controller) (cs : List Call) (fs : Fulfilled)
      → IsDistinct c.record_map
      → run hash nid_text instance₀ status₀ c cs ≡ ok (c', fs)
      → waiting p c'.record_map + fulfilled p fs ≡ waiting p c.record_map + scheduled p cs
  unfolding run
  run-promises c c' [] fs d e = ground arith
  run-promises c c' (schedule now q am code ∷ cs) fs d e =
      let ((c₁, out), done, rest) =
        >>=-eq-ok (schedule_with_code hash nid_text now q c am code) _ e in
      let (new, added, id) = schedule_adds hash nid_text now q c c₁ am code out done in
      let d₁ = subst IsDistinct (sym added) (new, d) in
      ground (arith, run-promises c₁ c' cs fs d₁ rest, ap (waiting p) added)
  run-promises c c' (resolve now istats res ∷ cs) fs d e =
      let c₁ = (resolve_activation instance₀ status₀ now c istats res).0 in
      let ((c₂, gs), ran, last) = >>=-eq-ok (run hash nid_text instance₀ status₀ c₁ cs) _ e in
      let (d₁, moved) = resolve_step instance₀ status₀ p now c istats res gs d in
      ground (arith, run-promises c₁ c₂ cs gs d₁ ran, moved, last)
