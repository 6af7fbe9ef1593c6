-- ===== src/Api/Capacity.antt =====
-- No race is overbooked, whatever requests come: the dorsals stay within the capacities, and no two
-- confirmed runners of a race have one dorsal.
use go_finish_line_api.Prelude.{
  ℕ, ◌≤◌, ◌≡◌, some, List, [], ◌∷◌, length, pos, ◌≤ℤ◌, All, subst, sym,
}
use go_finish_line_api.Participant.Repository.Places.{confirmed_in, length-confirmed_in}
use go_finish_line_api.Participant.Repository.Sound.{IsSound}
use go_finish_line_api.Race.Rest.{SanityWebhookPayload}
use go_finish_line_api.Httpx.Request.{Request}
use go_finish_line_api.Api.{Server, handle_all}
use go_finish_line_api.Api.Requests.{handle_all-Kept, handle_all-IsSound}
use go_finish_line_api.RateLimit.{Process}
use go_finish_line_api.Guarantee.{keeping, Trusts}
use go_finish_line_api.Guarantee.Handlers.{Syncs}
use go_finish_line_api.Guarantee.Soundness.{Sound}
use go_finish_line_api.Guarantee.Capacity
use go_finish_line_api.Guarantee.Bounds.{IsBounded, bounding, Bounded-IsKept}

module _ {Limit Limiter : Type 0} (srv : Server Limit Limiter) (n : ℕ) where
  -- A request syncs no race above the bound.
  abbrev pub SyncsUpTo : Request → Type 0
  SyncsUpTo r =
      (payload : SanityWebhookPayload)
      → srv.decode_webhook r.body ≡ some payload
      → payload.capacity ≤ℤ pos n

  All-Syncs :
      (rs : List Request)
      → All SyncsUpTo rs
      → All (λ r. Syncs (bounding (pos n)) srv.decode_webhook r) rs
  All-Syncs [] h = tt
  All-Syncs (r ∷ rs) (h, hs) = (
    λ payload read race same. subst (λ c. c ≤ℤ pos n) (sym same) (h payload read),
    All-Syncs rs hs,
  )

-- Whatever requests come and in whatever order: if no race is larger than a bound and no dorsal is
-- above it, the tables are sound, the webhooks among the requests ask for no more, and the other
-- sessions keep all that, then after the last request each race has at most as many confirmed
-- registrations as the bound says.
pub handle_all_overbooks_none :
    {Limit Limiter : Type 0} (srv : Server Limit Limiter) (rs : List Request)
    (p : Process Limit Limiter) (n race_id : ℕ)
    → Trusts (bounding (pos n)) p.world.script
    → Trusts (keeping Sound) p.world.script
    → All (SyncsUpTo srv n) rs
    → IsSound p.world.db
    → IsBounded (pos n) p.world.db
    → length (confirmed_in race_id (handle_all srv rs p).1.world.db.registrations) ≤ n
handle_all_overbooks_none srv rs p n race_id bounds keeps syncs sound bounded =
    let sound' = handle_all-IsSound srv rs p keeps sound in
    let kept =
      handle_all-Kept srv (bounding (pos n)) (Bounded-IsKept (pos n))
        (Capacity.register-Keeps (pos n)) rs p (All-Syncs srv n rs syncs) bounds in
    let bounded' = kept.kept bounded in
    length-confirmed_in race_id n (handle_all srv rs p).1.world.db.registrations sound'.apart
      sound'.rows bounded'.dorsals
