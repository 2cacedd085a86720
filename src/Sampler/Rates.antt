-- ===== src/Sampler/Rates.antt =====
-- Samplers that decide by the identifier alone agree with each other along a trace.
use zipkin_go.Base.{ℕ, ◌≤◌, ◌≡◌, arith, true}
use zipkin_go.Sampler.{boundary_sample}

-- What one service samples at a rate, every service with the same salt and a rate whose boundary is
-- as great samples too.
pub boundary_sample_mono :
    (b c salt id : ℕ) → b ≤ c → boundary_sample b salt id ≡ true → boundary_sample c salt id ≡ true
unfolding boundary_sample
boundary_sample_mono b c salt id h e = ground arith
