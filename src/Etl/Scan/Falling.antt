-- ===== src/Etl/Scan/Falling.antt =====
-- One worker of a scan sends the items of its checkpoints from the highest down.
use huracan.Prelude.{
  ℕ, zero, suc, ◌+◌, ◌-◌, ◌*◌, ◌≤◌, ◌≡◌, refl, inl, inr, Bool, Option, none, some, List, [], ◌∷◌,
  ◌++◌, ◌==◌, length, Bool-cases, arith,
}
use huracan.Etl.Types.{ObjectItem, Block, Response, page, failed, KeyStore}
use huracan.Etl.Scan.{
  Env, Scan, go_on, Ended, Verdict, all_done, skip, fetch, check_completed, emit_object,
  emit_blocks, ask, send_item, mark, send_control, fetch_pages, scan_checkpoint, act, scan_loop,
}
use huracan.Etl.Scan.Rules.{emit_blocks_rule}
use huracan.Etl.Scan.Queries.{after_page_cases}

abbrev pub AreUpTo : ℕ → List (Option ℕ × ObjectItem) → Type 0
AreUpTo cp [] = Unit
AreUpTo cp ((tx, item) ∷ is) = (item.cp ≤ cp) × AreUpTo cp is

-- No item is followed by one of a higher checkpoint.
abbrev pub IsFalling : List (Option ℕ × ObjectItem) → Type 0
IsFalling [] = Unit
IsFalling ((tx, item) ∷ is) = AreUpTo item.cp is × IsFalling is

abbrev pub AreFrom : ℕ → List (Option ℕ × ObjectItem) → Type 0
AreFrom cp [] = Unit
AreFrom cp ((tx, item) ∷ is) = (cp ≤ item.cp) × AreFrom cp is

AreUpTo-append :
    (cp : ℕ) (is : List (Option ℕ × ObjectItem)) (tx : Option ℕ) (item : ObjectItem)
    → item.cp ≤ cp
    → AreUpTo cp is
    → AreUpTo cp (is ++ (tx, item) ∷ [])
AreUpTo-append cp [] tx item h a = (h, tt)
AreUpTo-append cp ((t, i) ∷ is) tx item h (b, a) = (b, AreUpTo-append cp is tx item h a)

IsFalling-append :
    (is : List (Option ℕ × ObjectItem)) (tx : Option ℕ) (item : ObjectItem)
    → IsFalling is
    → AreFrom item.cp is
    → IsFalling (is ++ (tx, item) ∷ [])
IsFalling-append [] tx item f a = (tt, tt)
IsFalling-append ((t, i) ∷ is) tx item (u, f) (h, a) =
    (AreUpTo-append i.cp is tx item h u, IsFalling-append is tx item f a)

AreFrom-append :
    (cp : ℕ) (is : List (Option ℕ × ObjectItem)) (tx : Option ℕ) (item : ObjectItem)
    → cp ≤ item.cp
    → AreFrom cp is
    → AreFrom cp (is ++ (tx, item) ∷ [])
AreFrom-append cp [] tx item h a = (h, tt)
AreFrom-append cp ((t, i) ∷ is) tx item h (b, a) = (b, AreFrom-append cp is tx item h a)

AreFrom-lower :
    (low high : ℕ) (is : List (Option ℕ × ObjectItem))
    → low ≤ high
    → AreFrom high is
    → AreFrom low is
AreFrom-lower low high [] h a = tt
AreFrom-lower low high ((t, i) ∷ is) h (b, a) = (omega (arith, h, b), AreFrom-lower low high is h a)

-- What was sent falls, down to `cp` at most.
abbrev pub FallsTo : ℕ → List (Option ℕ × ObjectItem) → Type 0
FallsTo cp is = IsFalling is × AreFrom cp is

module _ (store : KeyStore) (env : Env) where
  abbrev Keeps : ℕ → Scan store → Scan store → Type 0
  Keeps cp s t = FallsTo cp s.sent → FallsTo cp t.sent

  send_item-Keeps :
      (cp : ℕ) (item : ObjectItem) (s : Scan store)
      → item.cp ≡ cp
      → Keeps cp s (send_item store env item s)
  unfolding send_item
  send_item-Keeps cp item s e (f, a) = elim (Bool-cases (env.items_open (length s.sent))) [
    | inl o ↦ simp o (
      IsFalling-append s.sent s.tx_digest_once item f (rw (← e) at a),
      AreFrom-append cp s.sent s.tx_digest_once item (omega (arith, e)) a,
    )
    | inr o ↦ simp o (f, a)
  ]

  emit_object-Keeps :
      (cp : ℕ) (ts_sui : Option ℕ) (ts : ℕ) (p : ℕ × ℕ × Bool) (s : Scan store)
      → Keeps cp s (emit_object store env cp ts_sui ts p s)
  unfolding emit_object
  emit_object-Keeps cp ts_sui ts (id, version, deleted) s = by_mark (mark store env s.db id)
    where
      item : ObjectItem
      item = record {
        cp = cp;
        deletion = deleted;
        id = id;
        version = version;
        ts_sui = ts_sui;
        ts_first_seen = ts;
        ingested_via = env.ingest_route;
        bytes = [];
      }

      by_mark :
          (o : Option (Option store.Db))
          → Keeps cp s (elim o [
            | none ↦ s
            | some db ↦
                send_item store env item (record s { db = db; num_objects = s.num_objects + 1 })
          ])
      by_mark none h = h
      by_mark (some db) h =
          send_item-Keeps cp item (record s { db = db; num_objects = s.num_objects + 1 }) refl h

  emit_blocks-Keeps :
      (cp ts : ℕ) (bs : List Block) (s : Scan store) → Keeps cp s (emit_blocks store env cp ts bs s)
  emit_blocks-Keeps cp ts =
      emit_blocks_rule store env cp ts (Keeps cp) (λ s h. h) (λ s t u p q h. q (p h)) (λ s d h. h)
        (λ s t p o. emit_object-Keeps cp t ts p s)

  send_control-Keeps : (cp : ℕ) (s : Scan store) → Keeps cp s (send_control store env cp s).0
  unfolding send_control
  send_control-Keeps cp s h = elim (Bool-cases (env.control_open (length s.control))) [
    | inl o ↦ simp o h
    | inr o ↦ simp o h
  ]

  fetch_pages-Keeps :
      (cp : ℕ) (rs : List Response) (left : ℕ) (cursor : Option ℕ) (s : Scan store)
      → Keeps cp s (fetch_pages store env cp rs left cursor s).0
  unfolding fetch_pages
  fetch_pages-Keeps cp [] left cursor s h = h
  fetch_pages-Keeps cp (failed ∷ rs) left cursor s h = elim (Bool-cases (left == 0)) [
    | inl o ↦ simp o h
    | inr o ↦ simp o (fetch_pages-Keeps cp rs (left - 1) cursor (ask store env cp cursor s) h)
  ]
  fetch_pages-Keeps cp (page ts p ∷ rs) left cursor s h =
      let t : Scan store = emit_blocks store env cp ts p.blocks (ask store env cp cursor s) in
      let e : FallsTo cp t.sent = emit_blocks-Keeps cp ts p.blocks (ask store env cp cursor s) h in
      after_page_cases store env (λ r. FallsTo cp r.0.sent) cp p t
        (λ c. fetch_pages store env cp rs env.checkpointretries (some c) t) (λ z. e)
        (λ z l. send_control-Keeps cp t e)
        (λ c z n m. fetch_pages-Keeps cp rs env.checkpointretries (some c) t e)

  scan_checkpoint-Keeps : (cp : ℕ) (s : Scan store) → Keeps cp s (scan_checkpoint store env cp s).0
  unfolding scan_checkpoint
  scan_checkpoint-Keeps cp s =
      fetch_pages-Keeps cp (env.responses cp) env.checkpointretries none
        (record s { num_objects = 0 })

  module _ (step : ℕ) (positive : 1 ≤ step) where
    abbrev Go : Type 0
    Go = ℕ → List (ℕ × ℕ) → Scan store → Scan store × Ended

    act-IsFalling :
        (cp : ℕ) (s : Scan store) (go : Go) (v : Verdict)
        → FallsTo cp s.sent
        → ((cp' : ℕ) (rs : List (ℕ × ℕ)) (t : Scan store)
            → FallsTo cp' t.sent
            → IsFalling (go cp' rs t).0.sent)
        → IsFalling (act store env step cp s go v).0.sent
    unfolding act
    act-IsFalling cp s go all_done (f, a) ih = f
    act-IsFalling cp s go (skip k rs) (f, a) ih =
        ih (cp - step - k * step) rs s
          (f, AreFrom-lower (cp - step - k * step) cp s.sent (omega arith) a)
    act-IsFalling cp s go (fetch rs) h ih =
        let (f, a) = scan_checkpoint-Keeps cp s h in
        let t = (scan_checkpoint store env cp s).0 in
        elim (Bool-cases (go_on (scan_checkpoint store env cp s).1)) [
          | inl on ↦
              rw on (ih (cp - step) rs t (f, AreFrom-lower (cp - step) cp t.sent (omega arith) a))
          | inr off ↦ rw off f
        ]

    -- From a scan that has sent nothing of a lower checkpoint.
    pub scan_loop-IsFalling :
        (fuel cp : ℕ) (ranges : List (ℕ × ℕ)) (s : Scan store)
        → FallsTo cp s.sent
        → IsFalling (scan_loop store env fuel step cp ranges s).0.sent
    unfolding scan_loop
    scan_loop-IsFalling zero cp ranges s h = h.0
    scan_loop-IsFalling (suc fuel) cp ranges s h = elim (Bool-cases (cp == 0)) [
      | inl z ↦ rw z h.0
      | inr pos ↦ elim (Bool-cases (env.stop cp)) [
        | inl z ↦ rw (pos, z) h.0
        | inr z ↦
            rw (pos, z)
              (act-IsFalling cp s (scan_loop store env fuel step) (check_completed cp step ranges) h
                (scan_loop-IsFalling fuel))
      ]
    ]
