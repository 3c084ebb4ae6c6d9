-- ===== src/Etl/Scan/Known.antt =====
-- With a key store, as in a backfill, a scan sends each object at most once.
use huracan.Prelude.{
  ℕ, ◌+◌, ◌-◌, ◌≤◌, ◌≡◌, inl, inr, Bool, false, Option, none, some, List, [], ◌∷◌, ◌++◌, ◌==◌,
  if◌then◌else◌, Bool-cases, arith,
}
use native.Mathlib.Nat.{le_trans, le_refl}
use huracan.Etl.Types.{ObjectItem, Block, Response, page, failed, KeyStore, IsKeyStore}
use huracan.Etl.Scan.{
  Env, Scan, emit_object, emit_blocks, ask, send_control, fetch_pages, scan_checkpoint, scan_loop,
}
use huracan.Etl.Scan.Rules.{emit_blocks_rule}
use huracan.Etl.Scan.Queries.{after_page_cases}
use huracan.Etl.Scan.Loop.{scan_loop_rule}

-- How often an object was sent.
abbrev pub sends_of : ℕ → List (Option ℕ × ObjectItem) → ℕ
sends_of id [] = 0
sends_of id ((d, item) ∷ items) = (if item.id == id then 1 else 0) + sends_of id items

sends_of-append :
    (id : ℕ) (is js : List (Option ℕ × ObjectItem))
    → sends_of id (is ++ js) ≡ sends_of id is + sends_of id js
sends_of-append id [] js = omega arith
sends_of-append id ((d, i) ∷ is) js = omega (arith, sends_of-append id is js)

module _ (store : KeyStore) (laws : IsKeyStore store) (env : Env) (id : ℕ) where
  -- How often the object can still be sent: never once its key is known.
  abbrev pub may_send : Option store.Db → ℕ
  may_send none = 1
  may_send (some db) = if store.is_known db id then 0 else 1

  -- The database stays in use, and sends are paid for by what may still be sent.
  abbrev pub Pays : Scan store → Scan store → Type 0
  Pays s t =
      (db : store.Db)
      → s.db ≡ some db
      → (db' : store.Db) × (t.db ≡ some db')
        × (sends_of id t.sent + may_send t.db ≤ sends_of id s.sent + may_send s.db)

  Pays-refl : (s : Scan store) → Pays s s
  Pays-refl s db e = (db, e, le_refl _)

  Pays-trans : (s t u : Scan store) → Pays s t → Pays t u → Pays s u
  Pays-trans s t u p q db e =
      let (db', e', l) = p db e in let (db'', e'', m) = q db' e' in (db'', e'', le_trans m l)

  emit_object-Pays :
      (cp ts : ℕ) (s : Scan store) (t : Option ℕ) (p : ℕ × ℕ × Bool)
      → s.is_closed ≡ false
      → Pays s (emit_object store env cp t ts p s)
  unfolding emit_object
  emit_object-Pays cp ts s t (key, version, deleted) o db e =
      elim (Bool-cases (store.is_known db key)) [
        | inl old ↦ (db, ground arith, ground arith)
        | inr new ↦
            let item : ObjectItem = record {
              cp = cp;
              deletion = deleted;
              id = key;
              version = version;
              ts_sui = t;
              ts_first_seen = ts;
              ingested_via = env.ingest_route;
              bytes = [];
            } in
            (
              store.put db key,
              ground arith,
              ground (
                arith,
                laws.is_known-put db key id,
                sends_of-append id s.sent ((s.tx_digest_once, item) ∷ []),
              ),
            )
      ]

  emit_blocks-Pays :
      (cp ts : ℕ) (bs : List Block) (s : Scan store) → Pays s (emit_blocks store env cp ts bs s)
  emit_blocks-Pays cp ts =
      emit_blocks_rule store env cp ts Pays Pays-refl Pays-trans (λ s d. Pays-refl s)
        (emit_object-Pays cp ts)

  send_control-Pays : (cp : ℕ) (s : Scan store) → Pays s (send_control store env cp s).0
  unfolding send_control
  send_control-Pays cp s db e = (db, ground arith, ground arith)

  fetch_pages-Pays :
      (cp : ℕ) (rs : List Response) (left : ℕ) (cursor : Option ℕ) (s : Scan store)
      → Pays s (fetch_pages store env cp rs left cursor s).0
  unfolding fetch_pages
  fetch_pages-Pays cp [] left cursor s = Pays-refl s
  fetch_pages-Pays cp (failed ∷ rs) left cursor s = elim (Bool-cases (left == 0)) [
    | inl z ↦ rw z (Pays-refl s)
    | inr z ↦ rw z (fetch_pages-Pays cp rs (left - 1) cursor (ask store env cp cursor s))
  ]
  fetch_pages-Pays cp (page ts p ∷ rs) left cursor s =
      let s' = ask store env cp cursor s in
      let t : Scan store = emit_blocks store env cp ts p.blocks s' in
      let rest = λ (c : ℕ). fetch_pages store env cp rs env.checkpointretries (some c) t in
      let pays : Pays s t = λ db e. emit_blocks-Pays cp ts p.blocks s' db e in
      after_page_cases store env (λ r. Pays s r.0) cp p t rest (λ z. pays)
        (λ z l. Pays-trans s t (send_control store env cp t).0 pays (send_control-Pays cp t))
        (λ c z n m.
          Pays-trans s t (rest c).0 pays (fetch_pages-Pays cp rs env.checkpointretries (some c) t))

  scan_checkpoint-Pays : (cp : ℕ) (s : Scan store) → Pays s (scan_checkpoint store env cp s).0
  unfolding scan_checkpoint
  scan_checkpoint-Pays cp s = λ db e.
      fetch_pages-Pays cp (env.responses cp) env.checkpointretries none
        (record s { num_objects = 0 }) db e

  pub scan_loop-Pays :
      (fuel step cp : ℕ) (ranges : List (ℕ × ℕ)) (s : Scan store)
      → Pays s (scan_loop store env fuel step cp ranges s).0
  scan_loop-Pays fuel step cp ranges s =
      scan_loop_rule store env step Pays Pays-refl Pays-trans fuel cp ranges s
        (λ c g t. scan_checkpoint-Pays c t)
