-- ===== src/Etl/Walk/Crawl/Endless.antt =====
-- What becomes of a walk over checkpoints whose queries answer with their own blocks.
use huracan.Prelude.{
  ℕ, zero, suc, ◌+◌, ◌-◌, ◌^◌, ◌<◌, ◌≡◌, refl, ◌∙◌, ◌⊎◌, inl, inr, true, false, Option, none, some,
  List, [], ◌∷◌, ◌++◌, ltb, ◌==◌, if◌then◌else◌, Bool-cases, Option-cases, arith,
}
use huracan.Etl.Types.{Block, Page, Response, page, failed, KeyStore}
use huracan.Etl.Scan.{Env, Scan}
use huracan.Etl.Scan.Flow.{IsLast, IsFlowing, Settles, emit_block-open}
use huracan.Etl.Walk.Crawl.{
  Turn, on, again, over, panicked, waiting, out_of_fuel, Walker, cross_block, unless_left,
  walk_block, walk_blocks, make_query, at_cursor, turn_page, walk_pages, leave_last, no_objects,
  no_cursor, walk_round, next_round, walk_loop, do_walk,
}

-- All blocks are of the checkpoint.
abbrev pub AreOf : ℕ → List Block → Type 0
AreOf cp [] = Unit
AreOf cp (b ∷ bs) = (b.checkpoint ≡ some cp) × AreOf cp bs

abbrev pub AnswersOf : ℕ → List Response → Type 0
AnswersOf cp [] = Unit
AnswersOf cp (failed ∷ rs) = AnswersOf cp rs
AnswersOf cp (page ts p ∷ rs) = AreOf cp p.blocks × AnswersOf cp rs

-- How many queries were made by the checkpoint.
abbrev pub queries_by : ℕ → List (Option ℕ × Option ℕ) → ℕ
queries_by cp [] = 0
queries_by cp ((none, cursor) ∷ qs) = queries_by cp qs
queries_by cp ((some c, cursor) ∷ qs) = (if c == cp then 1 else 0) + queries_by cp qs

queries_by-append :
    (cp : ℕ) (ps qs : List (Option ℕ × Option ℕ))
    → queries_by cp (ps ++ qs) ≡ queries_by cp ps + queries_by cp qs
queries_by-append cp [] qs = omega arith
queries_by-append cp ((none, c) ∷ ps) qs = queries_by-append cp ps qs
queries_by-append cp ((some x, c) ∷ ps) qs = omega (arith, queries_by-append cp ps qs)

module _ (store : KeyStore) (env : Env) (flowing : IsFlowing env) (cp last : ℕ) where
  -- The walk is where it was, with a number of queries by the checkpoint behind it.
  record Ready (n : ℕ) (w : Walker store) : Type 0 where
    at : w.cp ≡ cp
    never_left : w.last_cp ≡ last
    is_open : w.crawl.is_closed ≡ false
    made : queries_by cp w.queries ≡ n

  abbrev Goes : ℕ → Walker store × Turn → Type 0
  Goes n r = (r.1 ≡ on) × Ready n r.0

  Goes-then :
      (m n : ℕ) (r : Walker store × Turn) (f : Walker store → Walker store × Turn)
      → Goes m r
      → ((v : Walker store) → Ready m v → Goes n (f v))
      → Goes n (unless_left store env r f)
  Goes-then m n (v, on) f (e, a) g = g v a
  Goes-then m n (v, again) f (e, a) g = absurd cc
  Goes-then m n (v, over) f (e, a) g = absurd cc
  Goes-then m n (v, panicked) f (e, a) g = absurd cc
  Goes-then m n (v, waiting) f (e, a) g = absurd cc
  Goes-then m n (v, out_of_fuel) f (e, a) g = absurd cc

  cross_block-Goes :
      (n ts at : ℕ) (b : Block) (w : Walker store)
      → at ≡ cp
      → Ready n w
      → Goes n (cross_block store env ts at b w)
  unfolding cross_block
  cross_block-Goes n ts at b w e r =
      let down : ltb w.cp at ≡ false = ground (arith, r.at) in
      let open_ = emit_block-open store env flowing w.cp ts b w.crawl ∙ r.is_open in
      simp down (
        ground (arith, open_),
        record { at = r.at; never_left = r.never_left; is_open = open_; made = r.made },
      )

  walk_block-Goes :
      (n ts : ℕ) (b : Block) (w : Walker store)
      → b.checkpoint ≡ some cp
      → Ready n w
      → Goes n (walk_block store env ts b w)
  unfolding walk_block
  walk_block-Goes n ts b w e r =
      let own : (cp == w.cp) ≡ true = ground (arith, r.at) in
      rw (e, walk_block) (simp own (cross_block-Goes n ts cp b w refl r))

  walk_blocks-Goes :
      (n ts : ℕ) (bs : List Block) (w : Walker store)
      → AreOf cp bs
      → Ready n w
      → Goes n (walk_blocks store env ts bs w)
  unfolding walk_blocks
  walk_blocks-Goes n ts [] w a r = (refl, r)
  walk_blocks-Goes n ts (b ∷ bs) w (own, a) r =
      Goes-then n n (walk_block store env ts b w) (walk_blocks store env ts bs)
        (walk_block-Goes n ts b w own r) (λ v. walk_blocks-Goes n ts bs v a)

  -- Queries without a checkpoint do not count.
  make_query-none-Ready :
      (n : ℕ) (w : Walker store) → Ready n w → Ready n (make_query store env none w)
  make_query-none-Ready n w r = record {
    at = r.at;
    never_left = r.never_left;
    is_open = r.is_open;
    made = queries_by-append cp w.queries _ ∙ omega (arith, r.made);
  }

  make_query-some-Ready :
      (n own : ℕ) (w : Walker store)
      → own ≡ cp
      → Ready n w
      → Ready (n + 1) (make_query store env (some own) w)
  make_query-some-Ready n own w e r = record {
    at = r.at;
    never_left = r.never_left;
    is_open = r.is_open;
    made = queries_by-append cp w.queries _ ∙ ground (arith, r.made, e);
  }

  turn_page-Goes :
      (n : ℕ) (p : Page) (rest : Walker store → Walker store × Turn) (v : Walker store)
      → Ready n v
      → (IsLast p ⊎ ((u : Walker store) → Ready n u → Goes n (rest u)))
      → Goes n (turn_page store env p rest v)
  turn_page-Goes n p rest v r more = elim (Bool-cases p.has_next_page) [
    | inr done ↦ simp done (refl, r)
    | inl next ↦ elim (Option-cases p.next_cursor) [
      | inl lost ↦ simp (next, lost) (refl, r)
      | inr (c, found) ↦ elim more [
        | inl (inl z) ↦ absurd (ground arith)
        | inl (inr z) ↦ cc
        | inr go ↦
            simp (next, found)
              (go (at_cursor store env c v) (record {
                at = r.at;
                never_left = r.never_left;
                is_open = r.is_open;
                made = r.made;
              }))
      ]
    ]
  ]

  walk_pages-Goes :
      (m n left : ℕ) (query_cp : Option ℕ) (rs : List Response) (w : Walker store)
      → AnswersOf cp rs
      → Settles env.checkpointretries left rs
      → Ready m w
      → (Ready m w → Ready n (make_query store env query_cp w))
      → Goes n (walk_pages store env rs query_cp left w)
  unfolding walk_pages
  walk_pages-Goes m n left q [] w a x r asked = absurd x
  walk_pages-Goes m n left q (failed ∷ rs) w a x r asked = elim (Bool-cases (left == 0)) [
    | inl out ↦ simp out (refl, asked r)
    | inr more ↦ simp more (
        walk_pages-Goes n n (left - 1) none rs (make_query store env q w) a
          (elim x [ inl z ↦ absurd (ground arith) | inr y ↦ y ]) (asked r)
          (make_query-none-Ready n _))
  ]
  walk_pages-Goes m n left q (page ts p ∷ rs) w (own, a) x r asked =
      Goes-then n n (walk_blocks store env ts p.blocks (make_query store env q w)) _
        (walk_blocks-Goes n ts p.blocks _ own (asked r))
        (λ v s. turn_page-Goes n p _ v s (elim x [
          | inl z ↦ inl z
          | inr y ↦ inr (λ u t.
              walk_pages-Goes n n env.checkpointretries none rs u a y t (make_query-none-Ready n u))
        ]))

  module _ (answers : (round : ℕ) → AnswersOf cp (env.responses round))
      (new : (cp == last) ≡ false) where
    leave_last-Goes :
        (n : ℕ) (w : Walker store)
        → Ready n w
        → Goes n (leave_last store env (no_objects store env w))
    unfolding leave_last
    leave_last-Goes n w r =
        let fresh : (w.cp == w.last_cp) ≡ false = ground (arith, r.at, r.never_left) in
        simp fresh (
          refl,
          record { at = r.at; never_left = r.never_left; is_open = r.is_open; made = r.made },
        )

    no_cursor-Ready : (n : ℕ) (v : Walker store) → Ready n v → Ready n (no_cursor store env v)
    no_cursor-Ready n v r = record {
      at = r.at;
      never_left = r.never_left;
      is_open = r.is_open;
      made = r.made;
    }

    walk_round-Goes :
        (round n : ℕ) (w : Walker store) → Ready n w → Goes (n + 1) (walk_round store env round w)
    unfolding walk_round
    walk_round-Goes round n w r =
        Goes-then n (n + 1) (leave_last store env (no_objects store env w)) _
          (leave_last-Goes n w r)
          (λ v t.
            walk_pages-Goes n (n + 1) env.checkpointretries (some v.cp) (env.responses round)
              (no_cursor store env v) (answers round) (flowing.answers round)
              (no_cursor-Ready n v t) (make_query-some-Ready n v.cp (no_cursor store env v) t.at))

    next_round-Ends :
        (m n : ℕ) (r : Walker store × Turn) (go : Walker store → Walker store × Turn)
        → Goes m r
        → ((v : Walker store) → Ready m v → ((go v).1 ≡ out_of_fuel) × Ready n (go v).0)
        → let t = next_round store env go r in (t.1 ≡ out_of_fuel) × Ready n t.0
    next_round-Ends m n (v, on) go (e, r) h = h v r
    next_round-Ends m n (v, again) go (e, r) h = absurd cc
    next_round-Ends m n (v, over) go (e, r) h = absurd cc
    next_round-Ends m n (v, panicked) go (e, r) h = absurd cc
    next_round-Ends m n (v, waiting) go (e, r) h = absurd cc
    next_round-Ends m n (v, out_of_fuel) go (e, r) h = absurd cc

    walk_loop-Ready :
        (fuel round m n : ℕ) (w : Walker store)
        → n ≡ m + fuel
        → Ready m w
        → let r = walk_loop store env fuel round w in (r.1 ≡ out_of_fuel) × Ready n r.0
    unfolding walk_loop
    walk_loop-Ready zero round m n w e r = let same : n ≡ m = omega (arith, e) in (refl, rw same r)
    walk_loop-Ready (suc fuel) round m n w e r =
        next_round-Ends (m + 1) n (walk_round store env round w) _ (walk_round-Goes round m w r)
          (λ v t. walk_loop-Ready fuel (round + 1) (m + 1) n v (omega (arith, e)) t)

-- Where each query by the first checkpoint answers with blocks of this checkpoint, and nothing from
-- outside ends the task: the walk never ends, whichever checkpoints are complete. In each round it asks
-- by the first checkpoint again, as often as the loop is run.
pub do_walk_unending :
    (store : KeyStore) (env : Env) (fuel checkpoint_start : ℕ) (ranges : List (ℕ × ℕ))
    (s : Scan store)
    → IsFlowing env
    → ((round : ℕ) → AnswersOf checkpoint_start (env.responses round))
    → checkpoint_start < 2 ^ 64 - 1
    → s.is_closed ≡ false
    → let r = do_walk store env fuel checkpoint_start ranges s in
      (r.1 ≡ out_of_fuel)
      × (r.0.cp ≡ checkpoint_start)
      × (queries_by checkpoint_start r.0.queries ≡ fuel)
unfolding do_walk
do_walk_unending store env fuel cp ranges s flowing answers small open_ =
    let (ends, r) =
      walk_loop-Ready store env flowing cp (2 ^ 64 - 1) answers (ground (arith, small)) fuel 0 0
        fuel _ (omega arith)
        (record { at = refl; never_left = refl; is_open = open_; made = refl }) in
    (ends, r.at, r.made)
