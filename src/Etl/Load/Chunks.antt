-- ===== src/Etl/Load/Chunks.antt =====
-- What a mongo worker passes on, and when it panics.
use huracan.Prelude.{
  append-nil, append_assoc, ℕ, zero, suc, ◌+◌, ◌≤◌, ◌<◌, ◌≡◌, refl, sym, ◌∙◌, ap, inl, inr, true,
  Option, List, [], ◌∷◌, ◌++◌, map, length, length-append, ◌==◌, Bool-cases, arith,
}
use huracan.Etl.Types.{ObjectItem, StepStatus, ok}
use huracan.Etl.Load.{
  update_of, Answer, done, failed, Load, Result, written, panicked, Env, accept, send_command,
  count_error, load_chunk, load_batched,
}

abbrev pub item_of : StepStatus × ObjectItem × Option ℕ → ObjectItem
item_of (status, item, completed_at) = item

abbrev pub items_of : Load → List ObjectItem
items_of l = map item_of l.loaded

abbrev pub joined : List (List ObjectItem) → List ObjectItem
joined [] = []
joined (c ∷ cs) = c ++ joined cs

map-append :
    (xs ys : List (StepStatus × ObjectItem × Option ℕ))
    → map item_of (xs ++ ys) ≡ map item_of xs ++ map item_of ys
map-append [] ys = refl
map-append (x ∷ xs) ys = ap (λ t. item_of x ∷ t) (map-append xs ys)

map-item_of :
    (is : List ObjectItem) (t : Option ℕ)
    → map item_of (map (λ (i : ObjectItem). (ok, i, t)) is) ≡ is
map-item_of [] t = refl
map-item_of (i ∷ is) t = ap (λ r. i ∷ r) (map-item_of is t)

-- All of a chunk has been passed on, or nothing and the worker has panicked.
abbrev pub WholeChunk : List ObjectItem → Load → Load × Result → Type 0
WholeChunk c l (m, written) = items_of m ≡ items_of l ++ c
WholeChunk c l (m, panicked) = items_of m ≡ items_of l

-- All of the first chunks have been passed on, and of the others nothing; there are others if and
-- only if the worker has panicked.
abbrev pub WholeChunks : List (List ObjectItem) → Load → Load × Result → Type 0
WholeChunks cs l (m, written) = items_of m ≡ items_of l ++ joined cs
WholeChunks cs l (m, panicked) =
    (before : List (List ObjectItem)) × (c : List ObjectItem) × (after : List (List ObjectItem))
    × (cs ≡ before ++ c ∷ after)
    × (items_of m ≡ items_of l ++ joined before)

module _ (env : Env) where
  accept-WholeChunk :
      (c : List ObjectItem) (n : ℕ) (u : Option ℕ) (m : ℕ) (l k : Load)
      → k.loaded ≡ l.loaded
      → WholeChunk c l (accept env c n u m k)
  unfolding accept
  accept-WholeChunk c n u m l k e = elim (Bool-cases (n == length c)) [
    | inl h ↦ simp h (
        map-append k.loaded _
        ∙ ap (λ t. map item_of k.loaded ++ t) (map-item_of c _)
        ∙ ap (λ t. map item_of t ++ c) e)
    | inr h ↦ simp h (ap (map item_of) e)
  ]

  pub load_chunk-WholeChunk :
      (c : List ObjectItem) (retries_left : ℕ) (l k : Load)
      → k.loaded ≡ l.loaded
      → WholeChunk c l (load_chunk env c retries_left k)
  unfolding load_chunk
  load_chunk-WholeChunk c zero l k e = by_answer (env.answer (length k.commands))
    where
      by_answer :
          (a : Answer)
          → WholeChunk c l (elim a [
            | done n u m ↦ accept env c n u m (send_command env c k)
            | failed ↦ (count_error env (send_command env c k), panicked)
          ])
      by_answer (done n u m) = accept-WholeChunk c n u m l (send_command env c k) e
      by_answer failed = ap (map item_of) e
  load_chunk-WholeChunk c (suc retries_left) l k e =
      by_answer (env.answer (length k.commands))
        (load_chunk-WholeChunk c retries_left l (count_error env (send_command env c k)) e)
    where
      by_answer :
          (a : Answer)
          → WholeChunk c l (load_chunk env c retries_left (count_error env (send_command env c k)))
          → WholeChunk c l (elim a [
            | done n u m ↦ accept env c n u m (send_command env c k)
            | failed ↦ load_chunk env c retries_left (count_error env (send_command env c k))
          ])
      by_answer (done n u m) ih = accept-WholeChunk c n u m l (send_command env c k) e
      by_answer failed ih = ih

  -- A mongo worker passes on each item of the chunks that it takes, once and in order, chunk by
  -- chunk: all of them if it does not panic, and else all of the chunks before the one at which it
  -- panics, of which it passes on nothing.
  pub load_batched-WholeChunks :
      (cs : List (List ObjectItem)) (l : Load) → WholeChunks cs l (load_batched env cs l)
  unfolding load_batched
  load_batched-WholeChunks [] l = sym (append-nil (items_of l))
  load_batched-WholeChunks (c ∷ cs) l =
      by_result (load_chunk env c env.retries l) (load_chunk-WholeChunk c env.retries l l refl)
        (λ m. load_batched-WholeChunks cs m)
    where
      by_rest :
          (m : Load) (r : Load × Result)
          → items_of m ≡ items_of l ++ c
          → WholeChunks cs m r
          → WholeChunks (c ∷ cs) l r
      by_rest m (n, written) e h =
          h ∙ ap (λ t. t ++ joined cs) e ∙ append_assoc (items_of l) c (joined cs)
      by_rest m (n, panicked) e (before, d, after, s, h) = (
        c ∷ before,
        d,
        after,
        ap (λ t. c ∷ t) s,
        h ∙ ap (λ t. t ++ joined before) e ∙ append_assoc (items_of l) c (joined before),
      )

      by_result :
          (r : Load × Result)
          → WholeChunk c l r
          → ((m : Load) → WholeChunks cs m (load_batched env cs m))
          → WholeChunks (c ∷ cs) l (elim r.1 [ written ↦ load_batched env cs r.0 | panicked ↦ r ])
      by_result (m, written) h ih = by_rest m (load_batched env cs m) h (ih m)
      by_result (m, panicked) h ih = ([], c, cs, refl, h ∙ sym (append-nil (items_of l)))

  accept_all :
      (c : List ObjectItem) (u : Option ℕ) (m : ℕ) (k : Load)
      → let r = accept env c (length c) u m k in
        (r.1 ≡ written) × (r.0.commands ≡ k.commands) × (r.0.write_errors ≡ k.write_errors)
  unfolding accept
  accept_all c u m k =
      let h : (length c == length c) ≡ true = ground arith in simp h (refl, refl, refl)

  load_chunk_done :
      (c : List ObjectItem) (retries_left : ℕ) (l : Load) (u : Option ℕ) (m : ℕ)
      → env.answer (length l.commands) ≡ done (length c) u m
      → load_chunk env c retries_left l ≡ accept env c (length c) u m (send_command env c l)
  unfolding load_chunk
  load_chunk_done c zero l u m a = ground arith
  load_chunk_done c (suc retries_left) l u m a = ground arith

  load_chunk_failed :
      (c : List ObjectItem) (retries_left : ℕ) (l : Load)
      → env.answer (length l.commands) ≡ failed
      → load_chunk env c (suc retries_left) l
        ≡ load_chunk env c retries_left (count_error env (send_command env c l))
  unfolding load_chunk
  load_chunk_failed c retries_left l a = ground arith

  abbrev pub Writes : Load → ℕ → Load × Result → Type 0
  Writes l k r =
      (r.1 ≡ written)
      × (length r.0.commands ≡ length l.commands + k + 1)
      × (r.0.write_errors ≡ l.write_errors + k)

  one_more :
      (c : List ObjectItem) (l : Load)
      → length (send_command env c l).commands ≡ length l.commands + 1
  one_more c l = length-append l.commands (map update_of c ∷ [])

  -- If the database answers at last, after k failures and k at most the number of retries, that it
  -- has executed all updates of the chunk, the chunk is written: with k + 1 commands and k error points.
  pub load_chunk-written :
      (c : List ObjectItem) (k retries_left : ℕ) (l : Load) (u : Option ℕ) (m : ℕ)
      → k ≤ retries_left
      → ((j : ℕ) → j < k → env.answer (length l.commands + j) ≡ failed)
      → env.answer (length l.commands + k) ≡ done (length c) u m
      → Writes l k (load_chunk env c retries_left l)
  load_chunk-written c zero retries_left l u m h f a =
      let (e, g, w) = accept_all c u m (send_command env c l) in
      let a' : env.answer (length l.commands) ≡ done (length c) u m =
        ap env.answer (omega arith) ∙ a in
      rw (load_chunk_done c retries_left l u m a')
        (e, ap length g ∙ one_more c l ∙ omega arith, w ∙ omega arith)
  load_chunk-written c (suc k) zero l u m h f a = absurd (omega arith)
  load_chunk-written c (suc k) (suc retries_left) l u m h f a =
      let l' : Load = count_error env (send_command env c l) in
      let shift : (j : ℕ) → length l'.commands + j ≡ length l.commands + suc j =
        (λ j. omega (arith, one_more c l)) in
      let a' : env.answer (length l.commands) ≡ failed =
        ap env.answer (omega arith) ∙ f 0 (omega arith) in
      let (e, g, w) =
        load_chunk-written c k retries_left l' u m (omega arith)
          (λ j b. ap env.answer (shift j) ∙ f (suc j) (omega arith))
          (ap env.answer (shift k) ∙ a) in
      rw (load_chunk_failed c retries_left l a')
        (e, omega (arith, g, one_more c l), omega (arith, w))
