-- ===== src/Sliced/Serial.antt =====
-- src/dom_parallel.h: `run_sliced` beside one pass of `for_each_line` over the whole input.
use mathlib.Core.Path.{subst, fun_ext}
use native.Mathlib.Nat.{mod-eq_of_lt}
use jsonstreambench.Prelude.{
  ℕ, ◌+◌, ◌-◌, ◌*◌, ◌%◌, ◌≤◌, ◌<◌, ◌≡◌, refl, ap, ◌∙◌, sym, Bool, true, false, List, [], ◌∷◌, inl,
  inr, arith, Bytes, if◌then◌else◌, leb, ◌==◌, length, take, take_all, window, window-zero, u64_mod,
  Bool-cases, visit,
}
use jsonstreambench.Lines.{newline, for_each_line}
use jsonstreambench.Lines.Split.{lines, documents_of, documents}
use jsonstreambench.Lines.Loop.{for_each_line-documents}
use jsonstreambench.Extraction.{Extraction, no_extraction}
use jsonstreambench.Extraction.Sum.{Adds, IsWord, merge-Adds, id-Adds, compose-Adds}
use jsonstreambench.Slicing.{snap, snap_to_newline}
use jsonstreambench.Slicing.Cover.{start, piece}
use jsonstreambench.Pool.{Worker, run, spawn, all_done}
use jsonstreambench.Pool.Total.{total, range}
use jsonstreambench.Pool.Dynamic.{Counts, Ends, mul-le-mul_right}
use jsonstreambench.Pool.Finish.{dynamic_total}
use jsonstreambench.Pool.Static.{static_total}
use jsonstreambench.Sliced.{
  thread_count, slice_size, slice_count, parse_claim, sliced_job, sliced_pool, merge_shards,
  run_sliced,
}
use jsonstreambench.Sliced.Ranges.{range_ext, sum-pieces}
use jsonstreambench.Sliced.Pieces.{sum_of, visit-Adds, Fits, claim_inside, claim_outside}

-- The slice that is claimed at `raw`; empty if an earlier claim covers it.
claimed_text : Bytes → ℕ → ℕ → ℕ → Bytes
claimed_text data_ length slice_bytes raw =
    let begin = if raw == 0 then 0 else snap_to_newline data_ length raw in
    let end = snap_to_newline data_ length ((raw + slice_bytes) % u64_mod) in
    if leb end begin then [] else window data_ begin (end - begin)

pub merge_shards-Adds :
    (ws : List (Worker Extraction))
    → Adds (merge_shards ws) (total (λ w. w.shard.sum) ws) (total (λ w. w.shard.matches) ws)
unfolding merge_shards total
merge_shards-Adds [] = id-Adds
merge_shards-Adds (w ∷ ws) = compose-Adds (merge-Adds w.shard) (merge_shards-Adds ws)

pub extraction_eq :
    (a b : Extraction)
    → IsWord a
    → IsWord b
    → a.sum % u64_mod ≡ b.sum % u64_mod
    → a.matches % u64_mod ≡ b.matches % u64_mod
    → a.trace ≡ b.trace
    → a.trace_limit ≡ b.trace_limit
    → a ≡ b
extraction_eq a b wa wb hs hm ht hl = ground arith

pub empty-IsWord : IsWord no_extraction
empty-IsWord = omega arith

module _ (data_ : Bytes) (length_ size threads : ℕ) (within : length_ ≤ length data_)
    (fits : Fits length_ size threads) where
  abbrev n : ℕ
  n = slice_count length_ size

  job-Ends :
      (parse : Bytes → Extraction → Extraction) (static : Bool)
      → Ends (sliced_job data_ length_ size parse static) n threads
  job-Ends parse static = record {
    goes = λ k h. ground (arith, claim_inside length_ size threads fits k h);
    stops = λ k h few. ground (arith, claim_outside length_ size threads fits k h);
  }

  window_nil : (pos k : ℕ) → k ≡ 0 → window data_ pos k ≡ []
  window_nil pos k e = rw e (window-zero data_ pos)

  -- What a claim takes is the slice of the slicing rule.
  claimed_text-piece :
      (k : ℕ)
      → k < n
      → claimed_text data_ length_ size (k * size) ≡ piece data_ length_ newline size (k * size)
  unfolding claimed_text piece snap_to_newline
  claimed_text-piece k h =
      let small : (k * size + size) % u64_mod ≡ k * size + size =
        mod-eq_of_lt (omega (arith, claim_inside length_ size threads fits k h, fits.sum)) in
      let begin = start data_ length_ newline (k * size) in
      let end = snap data_ length_ newline (k * size + size) in
      rw small (elim (Bool-cases (leb end begin)) [
        | inl covered ↦ rw covered (sym (window_nil begin (end - begin) (ground arith)))
        | inr open_ ↦ rw open_
      ])

  sum-range :
      (f : Bytes → ℕ)
      → sum_of f (documents (take length_ data_))
        ≡ range (λ j. sum_of f (documents (claimed_text data_ length_ size (j * size)))) 0 n
  sum-range f =
      sum-pieces data_ length_ size within fits.size_pos f n
        (claim_outside length_ size threads fits n (omega arith))
      ∙ range_ext _ _ 0 n
          (λ k _ h. ap (λ t. sum_of f (documents t)) (sym (claimed_text-piece k (omega arith))))

  module _ (handle : Bytes → Extraction → Extraction) (s m : Bytes → ℕ)
      (adds : (d : Bytes) → Adds (handle d) (s d) (m d)) where
    -- The parser of a slice: every document of it is handed over.
    abbrev parse : Bytes → Extraction → Extraction
    parse slice out = for_each_line slice (length slice) handle out

    parse-visit : (slice : Bytes) → parse slice ≡ visit handle (documents slice)
    parse-visit slice = fun_ext (λ e.
        for_each_line-documents slice (length slice) handle e (omega arith)
        ∙ ap (λ t. visit handle (documents t) e) (take_all (length slice) slice (omega arith)))

    -- An empty slice would add nothing, so it does not matter that it is skipped.
    claim-parse :
        (raw : ℕ) (e : Extraction)
        → parse_claim data_ length_ size parse raw e ≡ parse (claimed_text data_ length_ size raw) e
    unfolding parse_claim claimed_text
    claim-parse raw e =
        let begin = if raw == 0 then 0 else snap_to_newline data_ length_ raw in
        let end = snap_to_newline data_ length_ ((raw + size) % u64_mod) in
        elim (Bool-cases (leb end begin)) [
          | inl covered ↦ rw covered (
              sym (
                ap (λ f. f e) (parse-visit []) ∙ unfold documents lines documents_of visit in refl))
          | inr open_ ↦ rw open_
        ]

    parse-Adds :
        (slice : Bytes)
        → Adds (parse slice) (sum_of s (documents slice)) (sum_of m (documents slice))
    parse-Adds slice =
        subst (λ f. Adds f (sum_of s (documents slice)) (sum_of m (documents slice)))
          (sym (parse-visit slice)) (visit-Adds handle s m adds (documents slice))

    sum-Counts :
        (static : Bool)
        → Counts
            (sliced_job data_ length_ size parse static)
            (λ e. e.sum)
            (λ raw. sum_of s (documents (claimed_text data_ length_ size raw)))
    sum-Counts static = record {
      adds = λ raw e.
          ap (λ t. t.sum % u64_mod) (claim-parse raw e)
          ∙ (parse-Adds (claimed_text data_ length_ size raw)).sum e;
    }

    matches-Counts :
        (static : Bool)
        → Counts
            (sliced_job data_ length_ size parse static)
            (λ e. e.matches)
            (λ raw. sum_of m (documents (claimed_text data_ length_ size raw)))
    matches-Counts static = record {
      adds = λ raw e.
          ap (λ t. t.matches % u64_mod) (claim-parse raw e)
          ∙ (parse-Adds (claimed_text data_ length_ size raw)).matches e;
    }

    module _ (sched : List ℕ) (some_threads : 0 < threads) where
      joined_pool : Bool → List (Worker Extraction)
      joined_pool static =
          (run (sliced_job data_ length_ size parse static) sched
            (spawn no_extraction n threads)).workers

      room_of : (a b : ℕ) → b * size < u64_mod → a ≤ b → a * size < u64_mod
      room_of a b h le = let k = mul-le-mul_right a b size le in omega arith

      pool-total :
          (g : Extraction → ℕ) (f : Bytes → ℕ) (static : Bool)
          → g no_extraction ≡ 0
          → Counts
              (sliced_job data_ length_ size parse static)
              g
              (λ raw. sum_of f (documents (claimed_text data_ length_ size raw)))
          → all_done (joined_pool static) ≡ true
          → total (λ w. g w.shard) (joined_pool static) % u64_mod
            ≡ sum_of f (documents (take length_ data_)) % u64_mod
      unfolding joined_pool
      pool-total g f true z counts d =
          static_total (sliced_job data_ length_ size parse true) g _ n threads refl counts threads
            (job-Ends parse true) (room_of n (n + threads) fits.room (omega arith)) some_threads
            fits.small no_extraction sched z d
          ∙ ap (λ t. t % u64_mod) (sym (sum-range f))
      pool-total g f false z counts d =
          dynamic_total (sliced_job data_ length_ size parse false) g _ n threads refl counts
            (job-Ends parse false) no_extraction n threads z fits.room (omega arith) sched
            some_threads d
          ∙ ap (λ t. t % u64_mod) (sym (sum-range f))

      -- The merged shards are the serial result.
      merged :
          (static : Bool)
          → all_done (joined_pool static) ≡ true
          → merge_shards (joined_pool static) no_extraction
            ≡ for_each_line data_ length_ handle no_extraction
      merged static d =
          let ws = joined_pool static in
          let par = merge_shards-Adds ws in
          let docs = documents (take length_ data_) in
          let ser = visit-Adds handle s m adds docs in
          let a = merge_shards ws no_extraction in
          let b = visit handle docs no_extraction in
          extraction_eq a b (par.word no_extraction empty-IsWord)
            (ser.word no_extraction empty-IsWord)
            (par.sum no_extraction
              ∙ omega (arith, pool-total (λ e. e.sum) s static refl (sum-Counts static) d)
              ∙ sym (ser.sum no_extraction))
            (par.matches no_extraction
              ∙ omega (arith, pool-total (λ e. e.matches) m static refl (matches-Counts static) d)
              ∙ sym (ser.matches no_extraction))
            (par.quiet no_extraction refl ∙ sym (ser.quiet no_extraction refl))
            (par.limit no_extraction ∙ sym (ser.limit no_extraction))
          ∙ sym (for_each_line-documents data_ length_ handle no_extraction within)

-- Whatever the interleaving and the assignment of slices, the joined threads give what one pass
-- over the input gives, for every handler of documents that only adds to the sums of the sink, if
-- the sums of the loop fit in 64 bits.
pub run_sliced-for_each_line :
    (data_ : Bytes) (length_ threads slice_bytes : ℕ) (handle : Bytes → Extraction → Extraction)
    (s m : Bytes → ℕ) (static : Bool) (sched : List ℕ)
    → length_ ≤ length data_
    → Fits length_ (slice_size slice_bytes) (thread_count threads)
    → ((d : Bytes) → Adds (handle d) (s d) (m d))
    → all_done
        (sliced_pool data_ length_ threads slice_bytes
          (λ t. for_each_line t (length t) handle)
          static
          sched).workers
      ≡ true
    → run_sliced data_ length_ threads slice_bytes
        (λ t. for_each_line t (length t) handle)
        static
        sched
      ≡ for_each_line data_ length_ handle no_extraction
unfolding run_sliced joined_pool
run_sliced-for_each_line data_ length_ threads slice_bytes handle s m static sched within fits adds
      d =
    merged data_ length_ (slice_size slice_bytes) (thread_count threads) within fits handle s m adds
      sched (ground arith) static d
