-- ===== src/Greedy/RoundTrip.antt =====
-- `Parse` of a hash parser: the block means the data that it consumed.
use lz.Prelude.{
  append_assoc, ℕ, ◌+◌, ◌-◌, ◌≤◌, ◌<◌, ◌≡◌, ◌^◌, refl, sym, ap, ◌∙◌, arith, inl, inr, Bool, ◌&&◌,
  Option, none, some, List, [], ◌++◌, append-nil, length, take, drop, length-take, Bool-cases, ltb,
  ◌==◌, take-append-drop, take-take, take-all, ◌≢◌, ap_at,
}
use lz.Lz.{Bytes, Seq, Block, Error}
use lz.Spec.{decode, expand_all, literals_left}
use lz.Spec.Literals.{lit_total, expand_all-longer, literals_left-longer}
use lz.Slices.Laws.{slice_from_lem, slice_to_lem}
use lz.Bytes.Prefix.{AreBytes}
use lz.ParserBuffer.{ParserBuffer, memory}
use lz.ParserBuffer.Text.{IsValid}
use lz.Greedy.{State, trailing, block_size, parse, skip}
use lz.Greedy.Scan.{Scanned, Within}

-- A buffer that has been set up: it is valid, its memory holds bytes, and its sizes are those that
-- `Verify` lets pass.
pub record IsReady (b : ParserBuffer) : Type 0 where
  pub valid : IsValid b
  pub bytes : AreBytes (memory b)
  pub blocks : 0 < b.block_size
  pub small : b.buffer_size < 2 ^ 32

pub moved-IsReady :
    (b : ParserBuffer) (k : ℕ) → IsReady b → k ≤ length b.data_bytes → IsReady (record b { w = k })
moved-IsReady b k r le = record {
  valid = record {
    head_in = le;
    in_size = r.valid.in_size;
    margin = r.valid.margin;
    shrink_in = r.valid.shrink_in;
  };
  bytes = r.bytes;
  blocks = r.blocks;
  small = r.small;
}

Means : Bytes → ℕ → ℕ → Option (Block × ℕ) → Type 0
Means p window w r =
    (blk : Block) × (n : ℕ) × (r ≡ some (blk, n))
    × ((gone : Bytes) → decode blk (gone ++ take w p) ≡ gone ++ take n p)
    × Within window blk.sequences
    × (w < n)
    × (n ≤ length p)

-- The block that `trailing` makes means the text up to where it says.
trailing-Means :
    {T : Type 0} {Ok : T → Type 0} (no_literals : Bool) (p : Bytes) (window w : ℕ) (s : State T)
    → Scanned Ok p window w s
    → w < length p
    → Means p window w (trailing no_literals s p)
unfolding trailing decode Means
trailing-Means no_literals p window w s inv lt =
    let ss = s.block.sequences in
    let ls = s.block.literals in
    elim (Bool-cases (no_literals && ltb 0 (length s.block.sequences))) [
      | inl e ↦
          let sequences : 0 < length ss = ground (arith, e) in
          (
            s.block,
            s.lit_index,
            rw e refl,
            λ gone.
                ap (λ l. expand_all ss ls (gone ++ take w p) ++ l) (none_left ss ls inv.literals)
                ∙ append-nil (expand_all ss ls (gone ++ take w p))
                ∙ inv.means gone,
            inv.within,
            omega (arith, sequences, inv.progress),
            inv.in_text,
          )
      | inr e ↦ (
        record s.block { literals = ls ++ drop s.lit_index p },
        length p,
        rw (e, slice_from_lem s.lit_index p inv.in_text) refl,
        λ gone.
            ap (λ l. expand_all ss (ls ++ drop s.lit_index p) (gone ++ take w p) ++ l)
              (literals_left-longer ss ls (drop s.lit_index p) inv.literals)
            ∙ ap (λ t. t ++ drop s.lit_index p)
                (expand_all-longer ss ls (drop s.lit_index p) (gone ++ take w p)
                    (omega (arith, inv.literals))
                  ∙ inv.means gone)
            ∙ append_assoc gone (take s.lit_index p) (drop s.lit_index p)
            ∙ ap (λ t. gone ++ t)
                (take-append-drop s.lit_index p ∙ sym (take-all (length p) p (omega arith))),
        inv.within,
        lt,
        omega arith,
      )
    ]
  where
    none_left : (ss : List Seq) (ls : Bytes) → lit_total ss ≡ length ls → literals_left ss ls ≡ []
    none_left ss ls e =
        ap (literals_left ss) (sym (append-nil ls)) ∙ literals_left-longer ss ls [] e

-- What a call of `Parse` with a block returns: no block at the end of the data, or the next block. `buffer`
-- gives the buffer of a parser, and `Ready` says that a parser can go on.
pub data Parsed {F : Type 0} (buffer : F → ParserBuffer) (Ready : F → Type 0) (f : F)
    : F × Block × ℕ × Option Error → Type 0 where
  at_end :
      (buffer f).w ≡ length (buffer f).data_bytes
      → Parsed buffer Ready f
          (f, record { sequences = []; literals = [] }, 0, some Error.err_empty_buffer)
  next_block :
      {f' : F} {blk : Block} {n : ℕ}
      → 0 < n
      → n ≤ (buffer f).block_size
      → buffer f' ≡ record (buffer f) { w = (buffer f).w + n }
      → Ready f'
      → Within (buffer f).window_size blk.sequences
      → ((gone : Bytes)
          → decode blk (gone ++ take (buffer f).w (buffer f).data_bytes)
            ≡ gone ++ take ((buffer f).w + n) (buffer f).data_bytes)
      → Parsed buffer Ready f (f', blk, n, none)

-- What a call without a block returns: the head is moved over at most a block.
pub data Skipped {F : Type 0} (buffer : F → ParserBuffer) (Ready : F → Type 0) (f : F)
    : F × ℕ × Option Error → Type 0 where
  skip_end :
      (buffer f).w ≡ length (buffer f).data_bytes
      → Skipped buffer Ready f (f, 0, some Error.err_empty_buffer)
  skipped :
      {f' : F} {n : ℕ}
      → 0 < n
      → n ≤ (buffer f).block_size
      → buffer f' ≡ record (buffer f) { w = (buffer f).w + n }
      → Ready f'
      → Skipped buffer Ready f (f', n, none)

module _ (b : ParserBuffer) (r : IsReady b) where
  pub n-bounds : (b.w + block_size b ≤ length b.data_bytes) × (block_size b ≤ b.block_size)
  unfolding block_size
  n-bounds = ground (arith, r.valid.head_in)

  n-end : block_size b ≡ 0 → b.w ≡ length b.data_bytes
  unfolding block_size
  n-end e = ground (arith, r.valid.head_in, r.blocks)

  -- the data up to the end of the block
  abbrev pub block_data : Bytes
  block_data = take (b.w + block_size b) b.data_bytes

  pub length-block_data : length block_data ≡ b.w + block_size b
  length-block_data = omega (arith, length-take (b.w + block_size b) b.data_bytes, n-bounds)

-- The frame: a parser `f` with the buffer `b`, made of a buffer and tables. If the tables can be
-- prepared and searched, a call returns the next block.
module _ {F T : Type 0} (buffer : F → ParserBuffer) (make : ParserBuffer → T → F)
    (same : (b : ParserBuffer) (t : T) → buffer (make b t) ≡ b) (Ready : F → Type 0)
    (Ok : T → Type 0) (f : F) (r : IsReady (buffer f))
    (keeps : (k : ℕ) (t : T)
      → (buffer f).w ≤ k
      → k ≤ length (buffer f).data_bytes
      → Ok t
      → Ready (make (record (buffer f) { w = k }) t)) where
  abbrev b : ParserBuffer
  b = buffer f

  abbrev n : ℕ
  n = block_size b

  pub parse_frame :
      (prepare : Option T)
      → (search : T → Bytes → Option (State T)) → (no_literals : Bool)
      → (n ≢ 0 → (t : T) × (prepare ≡ some t) × Ok t)
      → (n ≢ 0
          → (t : T) → Ok t
          → (s : State T) × (search t (block_data b r) ≡ some s)
            × Scanned Ok (block_data b r) b.window_size b.w s)
      → (out : F × Block × ℕ × Option Error) × (parse make f b prepare search no_literals
          ≡ some out)
        × Parsed buffer Ready f out
  unfolding parse Means
  parse_frame prepare search no_literals prepared loop = elim (Bool-cases (n == 0)) [
    | inl e ↦ (
      (f, record { sequences = []; literals = [] }, 0, some Error.err_empty_buffer),
      rw e refl,
      at_end (n-end b r (ground (arith, e))),
    )
    | inr e ↦
        let ne : n ≢ 0 = ground (arith, e) in
        let (t, ready, ok) = prepared ne in
        let size = length-block_data b r in
        let bounds = n-bounds b r in
        let (s, run, inv) = loop ne t ok in
        let (blk, k, trail, means, within, lt, le) =
          trailing-Means no_literals (block_data b r) b.window_size b.w s inv
            (omega (arith, size, ne)) in
        (
          (make (record b { w = k }) s.tables, blk, k - b.w, none),
          rw (e, ready, slice_to_lem (b.w + n) b.data_bytes (bounds.0), run, trail) refl,
          next_block (omega (arith, lt)) (omega (arith, le, size, bounds))
              (same (record b { w = k }) s.tables
                ∙ ap_at (λ j. record b { w = j }) k (b.w + (k - b.w)) (omega (arith, lt)))
              (keeps k s.tables (omega (arith, lt)) (omega (arith, le, size, bounds)) inv.tables)
              within
              (λ gone.
                sym (
                  ap (λ t. decode blk (gone ++ t))
                    (take-take b.w (b.w + n) b.data_bytes (omega arith)))
                ∙ means gone
                ∙ ap (λ t. gone ++ t)
                    (take-take k (b.w + n) b.data_bytes (omega (arith, le, size))
                      ∙ ap_at (λ j. take j b.data_bytes) k (b.w + (k - b.w)) (omega (arith, lt)))),
        )
  ]

  pub skip_frame :
      (prepare : Option T)
      → (n ≢ 0 → (t : T) × (prepare ≡ some t) × Ok t)
      → (out : F × ℕ × Option Error) × (skip make f b prepare ≡ some out)
        × Skipped buffer Ready f out
  unfolding skip
  skip_frame prepare prepared = elim (Bool-cases (n == 0)) [
    | inl e ↦
        ((f, 0, some Error.err_empty_buffer), rw e refl, skip_end (n-end b r (ground (arith, e))))
    | inr e ↦
        let (t, ready, ok) = prepared (ground (arith, e)) in
        let bounds = n-bounds b r in
        (
          (make (record b { w = b.w + n }) t, n, none),
          rw (e, ready) refl,
          skipped (ground (arith, e)) (bounds.1) (same (record b { w = b.w + n }) t)
              (keeps (b.w + n) t (omega arith) (bounds.0) ok),
        )
  ]
