-- ===== src/Samples.antt =====
-- An allocator and buffers for the tests.
use f2k.Template.Sound.{IsSound}
use f2k.Template.{Collector, WorkerStats}
use f2k.Observation.{ObservationId, Template}
use f2k.Base.{
  ℕ, ◌≤◌, min, ◌≡◌, ◌≢◌, refl, sym, ap, ◌∙◌, Bool, true, none, some, List, [], ◌∷◌, ◌++◌, arith,
  length, take, replicate, All, length-append, length-take, length-replicate, take-take,
}
use f2k.Base.Bytes.{IsByte, pointer_to, IsMemory}
use f2k.Printbuf.{Allocator, Printbuf}

unfoldable pub grown : List ℕ → ℕ → List ℕ
grown old n = take n (old ++ replicate n 0)

pub some-inj : (a b : List ℕ) → some a ≡ some b → a ≡ b
some-inj a b e = ground arith

pub length-grown : (old : List ℕ) (n : ℕ) → length (grown old n) ≡ n
unfolding grown
length-grown old n = omega (
  arith,
  length-take n (old ++ replicate n 0),
  length-append old (replicate n 0),
  length-replicate {A = ℕ} n 0,
)

take-prefix : (k : ℕ) (xs ys : List ℕ) → k ≤ length xs → take k (xs ++ ys) ≡ take k xs
take-prefix ℕ.zero xs ys h = refl
take-prefix (ℕ.suc k) [] ys h = absurd (omega arith)
take-prefix (ℕ.suc k) (x ∷ xs) ys h = ap (λ r. x ∷ r) (take-prefix k xs ys (omega arith))

pub take-grown :
    (old : List ℕ) (n : ℕ) → take (min (length old) n) (grown old n) ≡ take (min (length old) n) old
unfolding grown
take-grown old n =
    take-take (min (length old) n) n (old ++ replicate n 0) (omega arith)
    ∙ take-prefix (min (length old) n) old (replicate n 0) (omega arith)

-- Every block is to be had, and its new bytes are zero.
abbrev pub zeroed : Allocator
zeroed = record {
  malloc = λ n. some (replicate n 0);
  realloc = λ old n. some (grown old n);
  malloc_size = λ n b e. ap length (sym (some-inj _ _ e)) ∙ length-replicate n 0;
  realloc_size = λ old n b e. ap length (sym (some-inj _ _ e)) ∙ length-grown old n;
  realloc_keeps =
      λ old n b e. ap (take (min (length old) n)) (sym (some-inj _ _ e)) ∙ take-grown old n;
}

pub zeroed-never : (old : List ℕ) (n : ℕ) → zeroed.realloc old n ≢ none
zeroed-never old n e = cc

-- "{" in an allocation of four bytes.
abbrev pub small : Printbuf
small = record { buf = 0x7b ∷ 0 ∷ 0 ∷ 0 ∷ []; bpos = 1; size = 4 }

-- Memory with listed bytes.
pub pointer_to-IsMemory : (bytes : List ℕ) → All IsByte bytes → IsMemory (pointer_to bytes)
pointer_to-IsMemory [] h i = omega arith
pointer_to-IsMemory (b ∷ bytes) h ℕ.zero = h.0
pointer_to-IsMemory (b ∷ bytes) h (ℕ.suc i) = pointer_to-IsMemory bytes h.1 i

-- `ver9_templates` with the elements 1, 4 and 8, memory without end, and a worker that saw nothing.
abbrev pub table : List ℕ
table = 1 ∷ 4 ∷ 8 ∷ 0 ∷ []

abbrev pub endless : Template → Bool
endless t = true

abbrev pub no_stats : WorkerStats
no_stats = record {
  num_packets_received = 0;
  num_dissected_flow_packets = 0;
  num_flows_unknown_template = 0;
  num_flows_processed = 0;
  num_good_templates_received = 0;
  num_known_templates = 0;
  num_bad_templates_received = 0;
}

abbrev pub empty_domain : ObservationId
empty_domain = record {
  id = 7;
  applications = λ k. none;
  selectors = λ k. none;
  interfaces = λ k. none;
  templates = λ k. none;
}

abbrev pub idle : Collector
idle = record { stats = no_stats; observation_id = empty_domain; database = [] }

pub empty_domain-IsSound : IsSound empty_domain
empty_domain-IsSound k t e = absurd (ground arith)
