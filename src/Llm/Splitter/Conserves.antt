-- ===== src/Llm/Splitter/Conserves.antt =====
-- What the splitter does with the characters of a stream.
use kubernetes_agent.Base.{
  ℕ, zero, suc, ◌+◌, ◌≡◌, refl, sym, ap, subst, ◌∙◌, true, false, Bool-cases, List, [], ◌∷◌, ◌++◌,
  append-nil, append_assoc, none, some, Option-cases, length, inl, inr, arith,
}
use kubernetes_agent.Llm.Splitter.{
  Event, Found, Splitter, zero_splitter, hold, emit_token, is_open_tag, find_tag, finish, at_tag,
  loop, feed, flush, feed_all, split_stream,
}
use kubernetes_agent.Llm.Splitter.Counts.{
  count, texts, concat, count-append, count-nil, texts-append, texts-emit_reasoning, texts-flushed,
  emit_token-count,
}
use kubernetes_agent.Llm.Splitter.Strips.{Strips, nothing_left, strip, Strips-append, Strips-all}
use kubernetes_agent.Llm.Splitter.Hold.{hold-join}
use kubernetes_agent.Llm.Splitter.Tags.{IsFound, find_tag-IsFound}

module _ (orbit : ℕ → ℕ) where
  -- A step of the splitter on `raw`: all of it but what is held back was kept or stripped, and every
  -- character that was kept is in an event or among the pending reasoning.
  record Passes (s : Splitter) (raw : List ℕ) (r : List Event × Splitter) : Type 0 where
    taken : List ℕ
    kept : List ℕ
    joined : raw ≡ taken ++ r.1.buf
    strips : Strips orbit taken kept
    counts :
        (c : ℕ) → count c (texts r.0) + count c r.1.reasoning ≡ count c s.reasoning + count c kept

finish_inside :
    (s : Splitter) (raw : List ℕ)
    → s.inside ≡ true
    → finish s raw
      ≡ ([], record { inside = true; buf = (hold raw).1; reasoning = s.reasoning ++ (hold raw).0 })
unfolding finish
finish_inside s raw h = rw h refl

finish_outside :
    (s : Splitter) (raw : List ℕ)
    → s.inside ≡ false
    → finish s raw ≡ (
      emit_token (hold raw).0,
      record { inside = false; buf = (hold raw).1; reasoning = s.reasoning },
    )
unfolding finish
finish_outside s raw h = rw h refl

module _ (orbit : ℕ → ℕ) where
  finish-Passes : (s : Splitter) (raw : List ℕ) → Passes orbit s raw (finish s raw)
  finish-Passes s raw = elim (Bool-cases s.inside) [
    | inl h ↦ rw (finish_inside s raw h) (record {
      taken = (hold raw).0;
      kept = (hold raw).0;
      joined = hold-join raw;
      strips = Strips-all orbit (hold raw).0;
      counts = λ c. omega (arith, count-nil c, count-append c s.reasoning (hold raw).0);
    })
    | inr h ↦ rw (finish_outside s raw h) (record {
      taken = (hold raw).0;
      kept = (hold raw).0;
      joined = hold-join raw;
      strips = Strips-all orbit (hold raw).0;
      counts = λ c. omega (arith, emit_token-count c (hold raw).0);
    })
  ]

  at_tag-count :
      (c : ℕ) (s : Splitter) (f : Found)
      → count c (texts (at_tag s f).0) + count c (at_tag s f).1.reasoning
        ≡ count c s.reasoning + count c f.prefix
  unfolding at_tag
  at_tag-count c s f = elim (Bool-cases (is_open_tag f.tag)) [
    | inl open_tag ↦ rw open_tag (omega (arith, emit_token-count c f.prefix))
    | inr close_tag ↦ rw close_tag (
        omega (
          arith,
          count-nil c,
          count-append c s.reasoning f.prefix,
          ap (count c) (texts-emit_reasoning (s.reasoning ++ f.prefix)),
        ))
  ]

  at_tag_then : (n : ℕ) (s : Splitter) (f : Found) → List Event × Splitter
  at_tag_then n s f = (
    (at_tag s f).0 ++ (loop orbit n (at_tag s f).1 f.rest).0,
    (loop orbit n (at_tag s f).1 f.rest).1,
  )

  loop-none :
      (n : ℕ) (s : Splitter) (raw : List ℕ)
      → find_tag orbit raw ≡ none
      → loop orbit (suc n) s raw ≡ finish s raw
  unfolding loop
  loop-none n s raw h = ground (arith, h)

  loop-some :
      (n : ℕ) (s : Splitter) (raw : List ℕ) (f : Found)
      → find_tag orbit raw ≡ some f
      → loop orbit (suc n) s raw ≡ at_tag_then n s f
  unfolding loop at_tag_then
  loop-some n s raw f h = ground (arith, h)

  through_tag :
      (n : ℕ) (s : Splitter) (raw : List ℕ) (f : Found)
      → IsFound orbit raw f
      → Passes orbit (at_tag s f).1 f.rest (loop orbit n (at_tag s f).1 f.rest)
      → Passes orbit s raw (at_tag_then n s f)
  unfolding at_tag_then
  through_tag n s raw f found p = record {
    taken = f.prefix ++ (f.tag ++ p.taken);
    kept = f.prefix ++ p.kept;
    joined =
        found.joined
        ∙ ap (λ r. f.prefix ++ (f.tag ++ r)) p.joined
        ∙ ap (λ r. f.prefix ++ r) (sym (append_assoc f.tag p.taken _))
        ∙ sym (append_assoc f.prefix (f.tag ++ p.taken) _);
    strips = Strips-append orbit (Strips-all orbit f.prefix) (strip f.tag found.tagged p.strips);
    counts = λ c. omega (
      arith,
      p.counts c,
      at_tag-count c s f,
      count-append c f.prefix p.kept,
      ap (count c) (texts-append (at_tag s f).0 (loop orbit n (at_tag s f).1 f.rest).0),
      count-append c (texts (at_tag s f).0) (texts (loop orbit n (at_tag s f).1 f.rest).0),
    );
  }

  loop-Passes : (n : ℕ) (s : Splitter) (raw : List ℕ) → Passes orbit s raw (loop orbit n s raw)
  loop-Passes zero s raw =
      unfold loop in
      record {
        taken = [];
        kept = [];
        joined = refl;
        strips = nothing_left;
        counts = λ c. omega (arith, count-nil c);
      }
  loop-Passes (suc n) s raw = elim (Option-cases (find_tag orbit raw)) [
    | inl h ↦ rw (loop-none n s raw h) (finish-Passes s raw)
    | inr (f, h) ↦ rw (loop-some n s raw f h) (
        through_tag n s raw f (find_tag-IsFound orbit raw f h)
          (loop-Passes n (at_tag s f).1 f.rest))
  ]

  feed-Passes :
      (s : Splitter) (delta : List ℕ) → Passes orbit s (s.buf ++ delta) (feed orbit s delta)
  unfolding feed
  feed-Passes s delta =
      let p =
        loop-Passes (suc (length (s.buf ++ delta))) (record s { buf = [] }) (s.buf ++ delta) in
      record {
        taken = p.taken;
        kept = p.kept;
        joined = p.joined;
        strips = p.strips;
        counts = p.counts;
      }

  feed_then : Splitter → List ℕ → List (List ℕ) → List Event × Splitter
  feed_then s delta deltas = (
    (feed orbit s delta).0 ++ (feed_all orbit (feed orbit s delta).1 deltas).0,
    (feed_all orbit (feed orbit s delta).1 deltas).1,
  )

  feed_both :
      (s : Splitter) (delta : List ℕ) (deltas : List (List ℕ))
      → let s' = (feed orbit s delta).1 in
        Passes orbit s (s.buf ++ delta) (feed orbit s delta)
        → Passes orbit s' (s'.buf ++ concat deltas) (feed_all orbit s' deltas)
        → Passes orbit s (s.buf ++ concat (delta ∷ deltas)) (feed_then s delta deltas)
  unfolding feed_then
  feed_both s delta deltas p q = record {
    taken = p.taken ++ q.taken;
    kept = p.kept ++ q.kept;
    joined =
        sym (append_assoc s.buf delta (concat deltas))
        ∙ ap (λ l. l ++ concat deltas) p.joined
        ∙ append_assoc p.taken _ (concat deltas)
        ∙ ap (λ l. p.taken ++ l) q.joined
        ∙ sym (append_assoc p.taken q.taken _);
    strips = Strips-append orbit p.strips q.strips;
    counts = λ c. omega (
      arith,
      p.counts c,
      q.counts c,
      count-append c p.kept q.kept,
      ap (count c)
          (texts-append (feed orbit s delta).0 (feed_all orbit (feed orbit s delta).1 deltas).0),
      count-append c (texts (feed orbit s delta).0)
          (texts (feed_all orbit (feed orbit s delta).1 deltas).0),
    );
  }

  feed_all-Passes :
      (s : Splitter) (deltas : List (List ℕ))
      → Passes orbit s (s.buf ++ concat deltas) (feed_all orbit s deltas)
  unfolding feed_all feed_then
  feed_all-Passes s [] = record {
    taken = [];
    kept = [];
    joined = append-nil s.buf;
    strips = nothing_left;
    counts = λ c. omega (arith, count-nil c);
  }
  feed_all-Passes s (delta ∷ deltas) =
      feed_both s delta deltas (feed-Passes s delta) (feed_all-Passes (feed orbit s delta).1 deltas)

  flush-count :
      (c : ℕ) (s : Splitter) → count c (texts (flush s).0) ≡ count c s.reasoning + count c s.buf
  unfolding flush
  flush-count c s = omega (
    arith,
    ap (count c) (texts-flushed s.inside (s.reasoning ++ s.buf)),
    count-append c s.reasoning s.buf,
  )

  -- However a stream is cut into deltas, the splitter loses and invents nothing: the events that it
  -- emits, the one of the final flush included, have every character exactly as often as the
  -- stream has it after some of its reasoning tags are taken out.
  pub split_stream-Strips :
      (deltas : List (List ℕ))
      → (kept : List ℕ) × Strips orbit (concat deltas) kept
        × ((c : ℕ) → count c (texts (split_stream orbit deltas)) ≡ count c kept)
  unfolding split_stream
  split_stream-Strips deltas =
      let p = feed_all-Passes zero_splitter deltas in
      let r = feed_all orbit zero_splitter deltas in
      (
        p.kept ++ r.1.buf,
        subst (λ l. Strips orbit l (p.kept ++ r.1.buf)) (sym p.joined)
            (Strips-append orbit p.strips (Strips-all orbit r.1.buf)),
        λ c. omega (
          arith,
          p.counts c,
          count-nil c,
          flush-count c r.1,
          count-append c p.kept r.1.buf,
          ap (count c) (texts-append r.0 (flush r.1).0),
          count-append c (texts r.0) (texts (flush r.1).0),
        ),
      )
