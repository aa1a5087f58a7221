-- ===== src/Server/Tokens/Laws.antt =====
-- cmd/server/tokens_handler.go: the lives of the tokens that requests ask for.
use open_trove.Base.{ℕ, ◌+◌, ◌*◌, ◌^◌, ◌%◌, ◌≤◌, ◌≡◌, arith}
use open_trove.Base.Int.{pos}
use open_trove.Auth.Tokens.{hour}
use open_trove.Server.Tokens.{ttl_of_days, wrapped}

-- Up to 106751 days, the life of a token that a request asks for is that number of days in
-- nanoseconds, and every multiple of 2 ^ 48 days more gives the same life, since the product wraps
-- around.
pub ttl_of_days-bounded :
    (days turns : ℕ) → days ≤ 106751 → ttl_of_days (days + turns * 2 ^ 48) ≡ pos (days * 24 * hour)
unfolding ttl_of_days wrapped
ttl_of_days-bounded days turns h =
    let one_turn : ((days + turns * 2 ^ 48) * 24 * hour) % 2 ^ 64 ≡ days * 24 * hour =
      omega (arith, h) in
    rw one_turn (ground (arith, h))
