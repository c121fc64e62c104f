-- ===== src/Controller/Records.antt =====
-- Each activation that is scheduled is answered once, by the result for its transaction.
use seuss.Prelude.{
  ℕ, length, ◌≡◌, ap, ◌∙◌, none, some, inl, inr, ◌∷◌, nat_eq, Bytes, ok, arith, Option-cases,
}
use seuss.Prelude.Int.{ℤ}
use seuss.Table.{Table, find, erase, find-cons, erase-cons, erase_absent, emplace_new, emplace_old}
use seuss.Invocation.{InvocationStats}
use seuss.Openwhisk.Msg.{ActivationMessage}
use seuss.Controller.Defs.{
  ActivationRecord, Controller, Outgoing, new_stats, schedule_with_code, complete, resolve_record,
  resolve_activation,
}

abbrev pub entry_of : (now promise : ℕ) → ActivationMessage → ActivationRecord
entry_of now promise am = record { promise = promise; message = am; start = now }

module _ (hash : Bytes → ℕ) (nid_text : ℕ → Bytes) where
  pub schedule_adds :
      (now promise : ℕ) (c c' : Controller) (am : ActivationMessage) (code : Bytes) (out : Outgoing)
      → schedule_with_code hash nid_text now promise c am code ≡ ok (c', out)
      → (find (hash am.transid.name) c.record_map ≡ none)
        × (c'.record_map ≡ (hash am.transid.name, entry_of now promise am) ∷ c.record_map)
        × (out.stats.transaction_id ≡ hash am.transid.name)
  unfolding schedule_with_code new_stats
  schedule_adds now promise c c' am code out e =
      elim (Option-cases (find (hash am.transid.name) c.record_map)) [
        | inl new ↦
            let added =
              emplace_new (hash am.transid.name) (entry_of now promise am) c.record_map new in
            (new, ground (arith, added), ground (arith, added))
        | inr (old, at) ↦
            let kept =
              emplace_old (hash am.transid.name) (entry_of now promise am) old c.record_map at in
            absurd (ground (arith, kept))
      ]

module _ (instance₀ status₀ : ℤ) (now : ℕ) (c : Controller) (istats : InvocationStats)
    (res : Bytes) where
  pub resolve_known :
      {entry : ActivationRecord}
      → find istats.transaction_id c.record_map ≡ some entry
      → resolve_activation instance₀ status₀ now c istats res ≡ (
        record c { record_map = erase istats.transaction_id c.record_map },
        some (entry.promise, complete instance₀ status₀ now entry istats res),
      )
  unfolding resolve_activation resolve_record
  resolve_known e = rw e

  pub resolve_unknown :
      find istats.transaction_id c.record_map ≡ none
      → resolve_activation instance₀ status₀ now c istats res ≡ (c, none)
  unfolding resolve_activation resolve_record
  resolve_unknown e = rw e

-- The first result for the transaction of an activation fulfils the promise that the activation was
-- scheduled with, with a completion of that very activation, and takes its record away; a second
-- result for it changes nothing and fulfils nothing.
pub resolve-schedule :
    (hash : Bytes → ℕ) (nid_text : ℕ → Bytes) (instance₀ status₀ : ℤ) (now later last promise : ℕ)
    (c c' : Controller) (am : ActivationMessage) (code : Bytes) (out : Outgoing)
    (istats : InvocationStats) (res res' : Bytes)
    → schedule_with_code hash nid_text now promise c am code ≡ ok (c', out)
    → istats.transaction_id ≡ out.stats.transaction_id
    → (resolve_activation instance₀ status₀ later c' istats res ≡ (
      record c' { record_map = c.record_map },
      some (promise, complete instance₀ status₀ later (entry_of now promise am) istats res),
    ))
      × (resolve_activation instance₀ status₀ last
            (record c' { record_map = c.record_map })
            istats
            res'
          ≡ (record c' { record_map = c.record_map }, none))
resolve-schedule hash nid_text instance₀ status₀ now later last promise c c' am code out istats res
      res' e same =
    let tid = hash am.transid.name in
    let entry = entry_of now promise am in
    let (new, added, id) = schedule_adds hash nid_text now promise c c' am code out e in
    let there : (find istats.transaction_id c'.record_map ≡ some entry) =
      ground (arith, added, id, find-cons tid tid entry c.record_map) in
    let gone : (erase istats.transaction_id c'.record_map ≡ c.record_map) =
      ground
        (arith, added, id, erase-cons tid tid entry c.record_map, erase_absent tid c.record_map) in
    let absent : (find istats.transaction_id c.record_map ≡ none) = ground (arith, id, new) in
    (
      resolve_known instance₀ status₀ later c' istats res there
          ∙ ap
              (λ (m : Table ℕ ActivationRecord). (
                record c' { record_map = m },
                some (promise, complete instance₀ status₀ later entry istats res),
              ))
              gone,
      resolve_unknown instance₀ status₀ last (record c' { record_map = c.record_map }) istats res'
          absent,
    )

-- What goes out for an activation.
module _ (hash : Bytes → ℕ) (nid_text : ℕ → Bytes) (now promise : ℕ) (c c' : Controller)
    (am : ActivationMessage) (code : Bytes) (out : Outgoing) where
  pub schedule_sends :
      schedule_with_code hash nid_text now promise c am code ≡ ok (c', out)
      → (out.args ≡ am.content)
        × (out.code ≡ code)
        × (out.stats.args_size ≡ length am.content)
        × (out.stats.transaction_id ≡ hash am.transid.name)
        × (out.stats.function_id ≡ hash am.revision)
  unfolding schedule_with_code new_stats
  schedule_sends e = elim (Option-cases (find (hash am.transid.name) c.record_map)) [
    | inl new ↦
        let added = emplace_new (hash am.transid.name) (entry_of now promise am) c.record_map new in
        (
          ground (arith, added),
          ground (arith, added),
          ground (arith, added),
          ground (arith, added),
          ground (arith, added),
        )
    | inr (old, at) ↦
        let kept =
          emplace_old (hash am.transid.name) (entry_of now promise am) old c.record_map at in
        absurd (ground (arith, kept))
  ]
