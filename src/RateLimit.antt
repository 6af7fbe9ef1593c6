-- ===== src/RateLimit.antt =====
-- internal/common/ratelimit/ratelimit.go: one limiter to a client. The limiter itself is
-- golang.org/x/time/rate's and a parameter. The map is an association list, since the program only
-- looks a key up and adds it; its lock makes the calls a sequence.
pub mod Clients
use go_finish_line_api.Prelude.{
  ℕ, ◌+◌, String, Bool, true, false, Option, none, some, List, [], ◌∷◌, if◌then◌else◌,
}
use go_finish_line_api.Text.{Text, text_eq}
use go_finish_line_api.Civil.{Time}
use go_finish_line_api.Store.{World}

-- `rate.Limit`, `rate.Every`, `rate.NewLimiter` and `(*rate.Limiter).Allow` at an instant
pub record RateLibrary (Limit Limiter : Type 0) : Type 0 where
  pub every : (interval : ℕ) → Limit
  pub new_limiter : Limit → (burst : ℕ) → Limiter
  pub allow : Time → Limiter → Bool × Limiter

pub record Store (Limit Limiter : Type 0) : Type 0 where
  pub limiters : List (Text × Limiter)
  pub rps : Limit
  pub burst : ℕ

module _ {Limit Limiter : Type 0} (lib : RateLibrary Limit Limiter) where
  unfoldable pub lookup : (ip : Text) → List (Text × Limiter) → Option Limiter
  unfolding text_eq
  lookup ip [] = none
  lookup ip ((key, l) ∷ rest) =
      let found = lookup ip rest in if text_eq key ip then some l else found

  -- `s.limiters[ip] = l`, where the key is new
  unfoldable pub put : (ip : Text) → Limiter → List (Text × Limiter) → List (Text × Limiter)
  put ip l limiters = (ip, l) ∷ limiters

  -- `Allow` changes a limiter through its pointer: the map sees it where it holds the limiter, and a
  -- limiter that the map does not hold is lost.
  unfoldable pub advance : (ip : Text) → Limiter → List (Text × Limiter) → List (Text × Limiter)
  unfolding text_eq
  advance ip l [] = []
  advance ip l ((key, old) ∷ rest) =
      let advanced = advance ip l rest in
      if text_eq key ip then (key, l) ∷ rest else (key, old) ∷ advanced

  abbrev pub or_new :
      (ip : Text) → Store Limit Limiter → Option Limiter → Limiter × Store Limit Limiter
  or_new ip s (some l) = (l, s)
  or_new ip s none =
      let l = lib.new_limiter s.rps s.burst in (l, record s { limiters = put ip l s.limiters })

  -- `limiterFor`: a client without a limiter gets one that is full.
  unfoldable pub limiter_for : (ip : Text) → Store Limit Limiter → Limiter × Store Limit Limiter
  unfolding lookup put
  limiter_for ip s = or_new ip s (lookup ip s.limiters)

  -- `s.limiterFor(ip).Allow()`
  unfoldable pub allow_ip :
      (at : Time) (ip : Text) → Store Limit Limiter → Bool × Store Limit Limiter
  unfolding limiter_for advance
  allow_ip at ip s =
      let (l, s') = limiter_for ip s in
      let (allowed, l') = lib.allow at l in
      (allowed, record s' { limiters = advance ip l' s'.limiters })

  -- The calls in their order: what each client was told.
  unfoldable pub allow_all : List (Time × Text) → Store Limit Limiter → List (Text × Bool)
  unfolding allow_ip
  allow_all [] s = []
  allow_all ((at, ip) ∷ calls) s =
      let (allowed, s') = allow_ip at ip s in (ip, allowed) ∷ allow_all calls s'

  -- One client with a limiter of its own.
  unfoldable pub allow_alone : List Time → Limiter → List Bool
  allow_alone [] l = []
  allow_alone (at ∷ times) l = let (allowed, l') = lib.allow at l in allowed ∷ allow_alone times l'

unfoldable pub new_store : {Limit Limiter : Type 0} → Limit → (burst : ℕ) → Store Limit Limiter
new_store rps burst = record { limiters = []; rps = rps; burst = burst }

-- A process: the world, and the limiters in its memory.
pub record Process (Limit Limiter : Type 0) : Type 0 where
  pub world : World
  pub store : Store Limit Limiter

-- The middleware of `PerIP`, with the handler behind it; `too_many` writes the refusal.
unfoldable pub per_ip :
    {Limit Limiter R : Type 0}
    → RateLibrary Limit Limiter
    → (too_many : String → R) (ip : Text) (next : World → R × World) → Process Limit Limiter
    → R × Process Limit Limiter
unfolding allow_ip
per_ip lib too_many ip next p =
    let (allowed, store) = allow_ip lib (p.world.clock p.world.ticks) ip p.store in
    let w = record p.world { ticks = p.world.ticks + 1 } in
    let (response, w') = next w in
    if allowed
    then (response, record { world = w'; store = store })
    else (too_many "too many requests, slow down", record { world = w; store = store })
