-- ===== src/Limiter/Tests.antt =====
-- Runs of internal/quicx/limiter.go on concrete calls.
use chimera_core.Prelude.{
  ℕ, ◌+◌, ◌-◌, ◌*◌, ◌≤◌, ◌≡◌, refl, false, List, [], ◌∷◌, arith, ℕ_discrete, if◌then◌else◌,
}
use chimera_core.Prelude.Bytes.{bytes_discrete}
use chimera_core.Prelude.Dict.{lookup, insert}
use chimera_core.Prelude.Int.{pos, negsuc}
use chimera_core.Limiter.{
  Limiter, new_limiter, remote_ip, refill, take_token, make_room, take_ip, allow, release,
}
use chimera_core.Limiter.Invariant.{IsValid, SameLimits, allow-IsValid}
use chimera_core.Limiter.Rate.{call, Event, give_back, step, is_guest, run, run_rate}

defaults :
    new_limiter (record {
      max_concurrent = pos 0;
      per_ip_burst = negsuc 4;
      per_ip_window = pos 0;
      max_tracked_ips = pos 9;
    })
    ≡ record {
      max_concurrent = 128;
      in_use = 0;
      burst = 20;
      window = 60000000000;
      max_tracked = 9;
      ips = [];
    }
unfolding new_limiter
defaults = refl

-- "1.2.3.4:50" and "[::A]:50".
hosts :
    (remote_ip (49 ∷ 46 ∷ 50 ∷ 46 ∷ 51 ∷ 46 ∷ 52 ∷ 58 ∷ 53 ∷ 48 ∷ [])
      ≡ 49 ∷ 46 ∷ 50 ∷ 46 ∷ 51 ∷ 46 ∷ 52 ∷ [])
    × (remote_ip (91 ∷ 58 ∷ 58 ∷ 65 ∷ 93 ∷ 58 ∷ 53 ∷ 48 ∷ []) ≡ 58 ∷ 58 ∷ 97 ∷ [])
unfolding remote_ip
hosts = (refl, refl)

abbrev peer : List ℕ
peer = 49 ∷ 46 ∷ 50 ∷ 46 ∷ 51 ∷ 46 ∷ 52 ∷ []

-- Two tokens, one more every five units of time.
abbrev small : Limiter
small = record { max_concurrent = 4; in_use = 0; burst = 2; window = 10; max_tracked = 8; ips = [] }

small-IsValid : IsValid small
small-IsValid = record {
  in_use_le = omega arith;
  tracked_pos = omega arith;
  tracked_le = omega arith;
  held = tt;
}

allow-IsValid_example :
    IsValid (allow small peer false 3).0
    × SameLimits small (allow small peer false 3).0
    × ((allow small peer false 3).0.in_use ≡ (if (allow small peer false 3).1 then 1 else 0))
allow-IsValid_example = allow-IsValid small peer false 3 small-IsValid

abbrev three_calls : List Event
three_calls = call peer false 3 ∷ call peer false 4 ∷ give_back false ∷ call peer false 5 ∷ []

burst_used : (run peer small three_calls).1 ≡ 2
unfolding run step is_guest allow take_ip take_token make_room refill remote_ip lookup insert
    bytes_discrete ℕ_discrete release
burst_used = refl

run_rate_example : (run peer small three_calls).1 * 10 ≤ 2 * 10 + (5 - 3) * 2
unfolding lookup
run_rate_example = run_rate 3 5 peer small three_calls (omega arith) refl (omega arith)
