-- ===== src/Examples/Limits.antt =====
-- The token buckets and the client address of backend/rate_limit.py on small inputs.
use reli.Prelude.{
  ℕ, ◌/◌, leb, List, Bool, ◌||◌, ◌+◌, ◌-◌, ◌*◌, ◌≤◌, ◌≡◌, refl, some, [], ◌∷◌, ◌==◌, String,
  String_equals, strip, split_commas, length, arith,
}
use reli.RateLimit.Buckets.{Floats, Tier, Key, addr, user, take_token, max_buckets}
use reli.RateLimit.Buckets.Bounded.{Take, takes, takes-max_buckets}
use reli.RateLimit.Buckets.Covered.{Tracks, call_count, allowed_count, full_count}
use reli.RateLimit.Buckets.Budget.{allowed_count-le}
use reli.RateLimit.Keys.{HttpRequest, client_address, peer_of}
use reli.RateLimit.Keys.Addresses.{Forwards, IsClientAddress, client_address-IsClientAddress}

-- Numbers in units of one sixty-millionth, of which every operation rounds down.
abbrev fixed_point : Floats ℕ
fixed_point = record {
  of_int = λ n. n * 60_000_000;
  add = λ a b. a + b;
  sub = λ a b. a - b;
  mul = λ a b. a * b / 60_000_000;
  div = λ a b. a * 60_000_000 / b;
  at_most = leb;
  floor = λ a. a / 60_000_000;
  ceil = λ a. (a + 59_999_999) / 60_000_000;
}

fixed_point-Tracks : Tracks fixed_point (λ a. a) 60_000_000 0 2
fixed_point-Tracks = record {
  full = omega arith;
  spends = λ t h k. ground (arith, h);
  capped = λ t. ground arith;
  refills = λ t updated now h. ground (arith, h);
}

abbrev twice : Tier
twice = record { name = "auth"; limit = 2 }

abbrev here : Key
here = addr "198.51.100.7"

abbrev burst : List (Take ℕ)
burst =
    record { tier = twice; key = here; now = 0 }
    ∷ record { tier = twice; key = user "1"; now = 1 }
    ∷ record { tier = twice; key = here; now = 2 }
    ∷ record { tier = twice; key = here; now = 3 }
    ∷ []

takes-max_buckets_example : length (takes fixed_point burst []) ≤ max_buckets
takes-max_buckets_example = takes-max_buckets fixed_point burst [] (omega arith)

-- The third of them is refused.
burst_allowed : allowed_count fixed_point "auth" here burst [] ≡ 2
unfolding allowed_count take_token
burst_allowed = refl

allowed_count-le_example :
    60 * 60_000_000 * allowed_count fixed_point "auth" here burst []
    ≤ full_count fixed_point "auth" here burst [] * (60 * 2 * 60_000_000)
      + (3 - 0) * 2
      + 120 * 0 * call_count "auth" here burst
allowed_count-le_example =
    allowed_count-le fixed_point (λ a. a) 60_000_000 0 "auth" here 2 burst 0 3 fixed_point-Tracks
      (λ _. refl, (λ _. refl, (λ _. refl, (λ _. refl, tt))))
      (omega arith, (omega arith, (omega arith, (omega arith, omega arith))))

abbrev through_proxy : HttpRequest
through_proxy = record {
  path = "/api/things";
  client = some "10.0.0.1";
  headers = ("x-forwarded-for", "203.0.113.9, 198.51.100.7 , 10.0.0.2") ∷ [];
  session_cookie = "";
}

abbrev is_inside : String → Bool
is_inside address = address == "10.0.0.1" || address == "10.0.0.2"

client_address_test : client_address is_inside through_proxy ≡ "198.51.100.7"
unfolding client_address split_commas strip
client_address_test = refl

client_address-IsClientAddress_example :
    (entries : List String) × Forwards through_proxy.headers entries
    × IsClientAddress is_inside
        (peer_of through_proxy.client)
        entries
        (client_address is_inside through_proxy)
client_address-IsClientAddress_example = client_address-IsClientAddress is_inside through_proxy
