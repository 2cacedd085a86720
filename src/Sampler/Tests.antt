-- ===== src/Sampler/Tests.antt =====
-- Rates and sources at which the theorems on the samplers are applied: a rate is its percentage, and a
-- source draws 0.
use zipkin_go.Base.{ℕ, ◌+◌, ◌*◌, ◌≡◌, refl, arith, Bool, List, [], ok, ◌==◌, ltb}
use zipkin_go.Sampler.{Rate, Random, new_counting_sampler, decisions}
use zipkin_go.Sampler.Reservoir.{count_true}
use zipkin_go.Sampler.Counting.{samples, new_counting_sampler-rate}

abbrev percent : Rate ℕ
percent = record {
  is_zero = λ n. n == 0;
  is_one = λ n. n == 100;
  below_ten_thousandth = λ n. n == 0;
  below_hundredth = λ n. n == 0;
  above_one = λ n. ltb 100 n;
  boundary = λ n. n * 92233720368547758;
  out_of_100 = λ n. n;
  text = λ n. [];
}

abbrev lowest : Random ℕ
lowest = record { intn = λ n w. (0, w + 1); intn_bound = λ n w h. h }

new_counting_sampler-rate_example :
    (ds rs : List Bool) × (w' : ℕ) × (new_counting_sampler percent lowest 40 0
      ≡ ok (decisions ds, w'))
    × (samples 100 ds 3 ≡ ok (rs, 3))
    × (count_true rs ≡ 40)
new_counting_sampler-rate_example =
    new_counting_sampler-rate percent lowest 40 0 3 refl refl refl refl (omega arith) (omega arith)
