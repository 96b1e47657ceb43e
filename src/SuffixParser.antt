-- ===== src/SuffixParser.antt =====
-- `gsap` of gsap.go: the greedy parser that looks for matches next to a position in the suffix array. A panic is
-- `none`. The suffix array is a parameter, what `suffix.Sort` makes of the data.
pub mod Index
pub mod Search
pub mod RoundTrip
pub mod Setup
use Prim.Native.Nat.{max}
use lz.Prelude.{
  ℕ, zero, suc, ◌+◌, ◌-◌, ◌^◌, ◌≤◌, ◌<◌, ◌≡◌, Bool, not, ◌&&◌, ◌||◌, Option, none, some, ◌>>=◌,
  List, [], ◌∷◌, ◌++◌, length, take, replicate, get_elem?, get_or, ltb, ◌==◌, if◌then◌else◌,
}
use lz.Prelude.Int.{ℤ, pos, pos_part}
use lz.Lz.{Bytes, Block, Error, Setting}
use lz.Slices.{slice_from, slice_to}
use lz.Bytes.{lcp}
use lz.Config.{is_zero, le_ℤ}
use lz.Config.Buffer as BufConfig
use lz.Config.Buffer.{BufConfig}
use lz.ParserBuffer
use lz.ParserBuffer.{ParserBuffer}
use lz.Suffix.{Sort, max_int32, invert}
use lz.Bitset
use lz.Bitset.{Bitset, member_before, member_after}
use lz.Greedy
use lz.Greedy.{Match, Searcher, State, start, emit, block_size}

-- `GSAPConfig`, with its buffer parameters as a `BufConfig`
pub record Config : Type 0 where
  pub buffer : BufConfig
  pub min_match_len : ℤ

unfoldable pub set_defaults : Config → Config
set_defaults cfg = record {
  buffer = BufConfig.set_defaults cfg.buffer;
  min_match_len = if is_zero cfg.min_match_len then pos 3 else cfg.min_match_len;
}

unfoldable pub verify : Config → Option Error
verify cfg =
    let rest =
      if not (le_ℤ (pos 2) cfg.min_match_len)
      then some (Error.err_range Setting.min_match_len)
      else if not (le_ℤ cfg.min_match_len cfg.buffer.window_size)
      then some (Error.err_range Setting.window_size)
      else if not (le_ℤ cfg.buffer.window_size (pos max_int32))
      then some (Error.err_range Setting.window_size)
      else none in
    elim (BufConfig.verify cfg.buffer) [ some e ↦ some e | none ↦ rest ]

-- `sa`, `isa` and `bits` of the parser
pub record Arrays : Type 0 where
  pub sa : List ℕ
  pub isa : List ℕ
  pub bits : Bitset

-- `gsap`. Its `GSAPConfig` has the sizes that its buffer has, and `MinMatchLen`.
pub record Parser : Type 0 where
  pub buffer : ParserBuffer
  pub arrays : Arrays
  pub min_match_len : ℕ

-- The arrays as `init`, `Reset` and `Shrink` leave them
unfoldable pub cleared : Arrays → Arrays
cleared t = record { sa = []; isa = []; bits = Bitset.clear t.bits }

-- The buffer is set up first, and stays so where the rest of the configuration is refused.
unfoldable pub init : Parser → Config → Parser × Option Error
init s cfg =
    let (b, e) = ParserBuffer.init s.buffer cfg.buffer in
    let c = set_defaults cfg in
    let rest : Parser × Option Error = elim (verify c) [
      | some err ↦ (record s { buffer = b }, some err)
      | none ↦ (
        record { buffer = b; arrays = cleared s.arrays; min_match_len = pos_part c.min_match_len },
        none,
      )
    ] in
    elim e [ some err ↦ (record s { buffer = b }, some err) | none ↦ rest ]

unfoldable pub reset : Parser → Bytes → Bytes → Parser × Option Error
reset s p q =
    let (b, e) = ParserBuffer.reset s.buffer p q in
    elim e [
      | some err ↦ (record s { buffer = b }, some err)
      | none ↦ (record s { buffer = b; arrays = cleared s.arrays }, none)
    ]

unfoldable pub shrink : Parser → Option (Parser × ℕ)
shrink s = ParserBuffer.shrink s.buffer >>= (λ (b, delta).
    some
      (record s { buffer = b; arrays = if ltb 0 delta then cleared s.arrays else s.arrays }, delta))

-- `isa[:n]` where the capacity suffices, else a new slice: what it holds is written over.
unfoldable pub resize : ℕ → List ℕ → List ℕ
resize n xs = take n xs ++ replicate (n - length xs) 0

-- The loops that insert `isa[i]` for `n` positions from `i` on
unfoldable pub mark : List ℕ → Bitset → (i n : ℕ) → Option Bitset
mark isa bits i zero = some bits
mark isa bits i (suc n) =
    get_elem? isa i >>= (λ j. Bitset.insert bits (j ∷ []) >>= (λ bits'. mark isa bits' (i + 1) n))

-- `sort`, and the arrays that it makes; it inverts the suffix array as `InvertSA` does.
unfoldable pub sort : Sort → Parser → Option Arrays
sort sorted s =
    let n = length s.buffer.data_bytes in
    let sa = sorted s.buffer.data_bytes in
    let run = invert 0 sa (resize n s.arrays.isa) >>= (λ isa.
      mark isa (Bitset.clear s.arrays.bits) 0 s.buffer.w
      >>= (λ bits. some (record { sa = sa; isa = isa; bits = bits }))) in
    if ltb max_int32 n then none else run

-- `lcp(p[f:], p[i:])`
unfoldable pub lcp_at : Bytes → (f i : ℕ) → Option ℕ
lcp_at p f i = slice_from f p >>= (λ a. slice_from i p >>= (λ b. lcp a b))

-- `f` and `m` of the neighbour before
unfoldable pub lower : Bytes → List ℕ → ℕ → Option ℕ → Option (ℕ × ℕ)
lower p sa i none = some (0, 0)
lower p sa i (some k) = get_elem? sa k >>= (λ f. lcp_at p f i >>= (λ m. some (f, m)))

-- The neighbour behind takes its place, if its match is longer, or as long and nearer.
unfoldable pub upper : Bytes → List ℕ → ℕ → ℕ × ℕ → Option ℕ → Option (ℕ × ℕ)
upper p sa i best none = some best
upper p sa i (f, m) (some k) = get_elem? sa k >>= (λ f2.
    lcp_at p f2 i >>= (λ m2. some (if ltb m m2 || (m2 == m && ltb f f2) then (f2, m2) else (f, m))))

-- The tests of the match of `i` with `f`; the offset is not positive unless `f` is before `i`.
unfoldable pub accept : (window min_len i : ℕ) → ℕ × ℕ → Option Match
accept window min_len i (f, m) =
    let o = i - f in
    if ltb m min_len
    then none
    else if not (ltb f i && ltb o window)
    then none
    else some (record { begin = i; len = m; offset = o })

-- The body of the loop up to the match
unfoldable pub find : Bytes → (window min_len : ℕ) → Arrays → ℕ → Option (Arrays × Option Match)
find p window min_len t i = get_elem? t.isa i >>= (λ j. Bitset.insert t.bits (j ∷ []) >>= (λ bits.
    lower p t.sa i (member_before bits j) >>= (λ best.
      upper p t.sa i best (member_after bits j)
      >>= (λ best'. some (record t { bits = bits }, accept window min_len i best')))))

-- `for i++; i < litIndex; i++`
unfoldable pub fill : Arrays → ℕ → Match → Option Arrays
fill t i m =
    mark t.isa t.bits (i + 1) (m.begin + m.len - (i + 1))
    >>= (λ bits. some (record t { bits = bits }))

unfoldable pub searcher : Bytes → (window min_len : ℕ) → Searcher Arrays
searcher p window min_len = record {
  find = λ t lit_index i. find p window min_len t i;
  fill = λ t i m. fill t i m;
}

-- The main loop. Its header raises `i` behind every round; the rounds without a match raise it too.
unfoldable pub scan : ℕ → Searcher Arrays → Bytes → State Arrays → ℕ → Option (State Arrays)
scan zero g p s i = none
scan (suc fuel) g p s i =
    let round = g.find s.tables s.lit_index i >>= (λ (t, r).
      let s' = record s { tables = t } in
      elim r [
        | none ↦ scan fuel g p s' (i + 2)
        | some m ↦ emit g p s' i m >>= (λ s''. scan fuel g p s'' (max (i + 1) s''.lit_index + 1))
      ]) in
    if ltb i (length p) then round else some s

abbrev pub make : (min_len : ℕ) → ParserBuffer → Arrays → Parser
make min_len b t = record { buffer = b; arrays = t; min_match_len = min_len }

-- The data is sorted anew, if the suffix array does not reach to the end of the block.
unfoldable pub prepare : Sort → Parser → Option Arrays
prepare sorted s =
    if ltb (length s.arrays.sa) (s.buffer.w + block_size s.buffer)
    then sort sorted s
    else some s.arrays

unfoldable pub search : Parser → Arrays → Bytes → Option (State Arrays)
search s t p =
    scan (suc (length p)) (searcher p s.buffer.window_size s.min_match_len) p (start t s.buffer.w)
      s.buffer.w

-- `Parse` with a block; `no_literals` is the flag `NoTrailingLiterals`.
unfoldable pub parse : Sort → Parser → Bool → Option (Parser × Block × ℕ × Option Error)
parse sorted s no_literals =
    Greedy.parse (make s.min_match_len) s s.buffer (prepare sorted s) (search s) no_literals

-- `Parse` without a block, which leaves the arrays as they are
unfoldable pub skip : Parser → Option (Parser × ℕ × Option Error)
skip s = Greedy.skip (make s.min_match_len) s s.buffer (some s.arrays)
