-- ===== src/Session/Generator.antt =====
-- The generator of endpoints of `session::connect` in src/session.cpp, as the range that
-- `boost::asio::async_connect` is given.
use minapp.Base.{
  ℕ, zero, suc, ◌+◌, ◌<◌, ◌≡◌, refl, ap, Bool, true, false, List, [], ◌∷◌, if◌then◌else◌, arith,
  ◌∙◌,
}

-- `generator_iterator`. The copies of an iterator share the generator, an `object::fn`: `gen n` is
-- what it gives when it is called for the `n`-th time.
pub record GeneratorIterator (E : Type 0) : Type 0 where
  pub endpoint : E

module _ {E : Type 0} (gen : ℕ → E) where
  -- The constructor and `operator++`, with the calls so far.
  unfoldable pub first_endpoint : ℕ → GeneratorIterator E × ℕ
  first_endpoint calls = (record { endpoint = gen calls }, calls + 1)

  unfoldable pub increment : GeneratorIterator E → ℕ → GeneratorIterator E × ℕ
  increment it calls = (record it { endpoint = gen calls }, calls + 1)

  module _ (same_endpoint : E → E → Bool) (default_endpoint : E) where
    -- `operator==` with `generator_iterator()`.
    unfoldable pub at_end : GeneratorIterator E → Bool
    at_end it = same_endpoint it.endpoint default_endpoint

    -- The endpoints that a loop from an iterator to the end meets, up to `n` of them.
    unfoldable pub endpoints_from : ℕ → GeneratorIterator E → ℕ → List E
    unfolding increment at_end
    endpoints_from zero it calls = []
    endpoints_from (suc n) it calls =
        let (it', calls') = increment it calls in
        let rest = endpoints_from n it' calls' in if at_end it then [] else it.endpoint ∷ rest

  -- What the generator gives from its call `calls` on, `m` times.
  pub listing : ℕ → ℕ → List E
  listing calls zero = []
  listing calls (suc m) = gen calls ∷ listing (calls + 1) m

  -- The range of a generator.
  pub endpoints_lem :
      (same_endpoint : E → E → Bool) (default_endpoint : E) (n m calls : ℕ)
      → m < n
      → ((k : ℕ) → k < m → same_endpoint (gen (calls + k)) default_endpoint ≡ false)
      → same_endpoint (gen (calls + m)) default_endpoint ≡ true
      → endpoints_from same_endpoint default_endpoint n
          (first_endpoint calls).0
          (first_endpoint calls).1
        ≡ listing calls m
  unfolding first_endpoint endpoints_from listing
  endpoints_lem same d zero m calls lt before last = absurd (omega arith)
  endpoints_lem same d (suc n) zero calls lt before last =
      let here : same (gen calls) d ≡ true = ap (λ c. same (gen c) d) (omega arith) ∙ last in
      rw here refl
  endpoints_lem same d (suc n) (suc m) calls lt before last =
      let here : same (gen calls) d ≡ false =
        ap (λ c. same (gen c) d) (omega arith) ∙ before 0 (omega arith) in
      rw here (
        ap (◌∷◌ (gen calls)) (
          endpoints_lem same d n m (calls + 1) (omega arith)
            (λ k h. ap (λ c. same (gen c) d) (omega arith) ∙ before (k + 1) (omega arith))
            (ap (λ c. same (gen c) d) (omega arith) ∙ last)))
