-- ===== src/Guarantee/Handlers.antt =====
-- The handlers keep what their services keep, and so does a guard in front of them.
use go_finish_line_api.Prelude.{
  arith, ◌≡◌, ℕ, Bool, Option, some, [], ◌∷◌, ◌||◌, Bool-cases, Option-cases, inl, inr,
}
use go_finish_line_api.Text.{Text, codes, text_eq, is_empty, Platform}
use go_finish_line_api.Civil.{Time}
use go_finish_line_api.Civil.Layout.{parse_date}
use go_finish_line_api.Apperr.{Result, ok, err}
use go_finish_line_api.Httpx.Request.{Request, get_query, query_text, bind_json, Handler, reply}
use go_finish_line_api.Auth.Library.{Library}
use go_finish_line_api.Auth.Service.{Settings, authenticate}
use go_finish_line_api.Auth.Middleware.{require_auth, bearer_token, guard}
use go_finish_line_api.Auth.Rest as AuthRest
use go_finish_line_api.Auth.Rest.{LoginRequest, CookieHandler}
use go_finish_line_api.User.Rest as UserRest
use go_finish_line_api.User.Rest.{CreateUserRequest, ChangePasswordRequest, UserResponse}
use go_finish_line_api.Race.Entity.{Race}
use go_finish_line_api.Race.Rest as RaceRest
use go_finish_line_api.Race.Rest.{SanityWebhookPayload}
use go_finish_line_api.Participant.Service as ParticipantService
use go_finish_line_api.Participant.Service.{RegisterInput}
use go_finish_line_api.Participant.Rest as ParticipantRest
use go_finish_line_api.Participant.Rest.{RegisterRequest}
use go_finish_line_api.Guarantee.Registrations
use go_finish_line_api.Guarantee.Races
use go_finish_line_api.Guarantee.Accounts
use go_finish_line_api.Guarantee.Sessions
use go_finish_line_api.Guarantee.{Guarantee, IsKept, Kept, Keeps, here, Kept-trans}
use go_finish_line_api.Store.{World}

-- The races that a call of the webhook asks for are admitted.
abbrev pub Syncs : Guarantee → (Text → Option SanityWebhookPayload) → Request → Type 0
Syncs G decode r =
    (p : SanityWebhookPayload)
    → decode r.body ≡ some p
    → (race : Race) → race.capacity ≡ p.capacity
    → G.admits race

decoded :
    (decode : Text → Option SanityWebhookPayload) (r : Request) (p : SanityWebhookPayload)
    → bind_json decode (λ p. p.operation ∷ []) r ≡ some p
    → decode r.body ≡ some p
unfolding bind_json
decoded decode r p bound = ground arith

module _ (G : Guarantee) (k : IsKept G) where
  guard-Kept :
      {A : Type 0} (next : ℕ → Handler A) (w v : World) (who : Result ℕ)
      → ((id : ℕ) → Keeps G (next id))
      → Kept G w v
      → Kept G w (guard next (who, v)).1
  guard-Kept next w v (ok id) h s = Kept-trans G k w v (next id v).1 s (h id v s.trusts)
  guard-Kept next w v (err e) h s = s

  pub require_auth-Keeps :
      {A : Type 0} (lib : Library) (s : Settings) (header : Text) (next : ℕ → Handler A)
      → ((id : ℕ) → Keeps G (next id))
      → Keeps G (require_auth lib s header next)
  unfolding require_auth
  require_auth-Keeps lib s header next h w t = elim (Option-cases (bearer_token header)) [
    | inl missing ↦ rw missing (here G k w t)
    | inr (token, found) ↦ rw found (
        guard-Kept next w (authenticate lib s token w).1 (authenticate lib s token w).0 h
          (Sessions.authenticate-Keeps G k lib s token w t))
  ]

  pub register-Keeps :
      (pf : Platform) (decode : Text → Option RegisterRequest) (secret : Text) (r : Request)
      → ((input : RegisterInput) → Keeps G (ParticipantService.register pf input))
      → Keeps G (ParticipantRest.require_secret secret r (ParticipantRest.register pf decode r))
  unfolding ParticipantRest.require_secret ParticipantRest.register reply
  register-Keeps pf decode secret r registers w t =
      elim (Bool-cases (text_eq r.service_secret secret)) [
        | inr wrong ↦ rw wrong (here G k w t)
        | inl right ↦ elim (Option-cases (bind_json decode ParticipantRest.required_fields r)) [
          | inl bad ↦ rw (right, bad) (here G k w t)
          | inr (q, bound) ↦ elim (Option-cases (parse_date q.birth_date)) [
            | inl bad ↦ rw (right, bound, bad) (here G k w t)
            | inr (d, read) ↦
                rw (right, bound, read) (registers (ParticipantRest.register_input q d) w t)
          ]
        ]
      ]

  pub list_by_race-Keeps :
      (lib : Library) (r : Request) → Keeps G (ParticipantRest.list_by_race lib r)
  unfolding ParticipantRest.list_by_race reply
  list_by_race-Keeps lib r w t =
      elim (Option-cases (lib.parse_uuid (query_text r (codes "race_id")))) [
        | inl bad ↦ rw bad (here G k w t)
        | inr (id, read) ↦ rw read (Registrations.by_race-Keeps G k id w t)
      ]

  apply_payload-Keeps :
      (rfc3339 : Text → Option Time) (p : SanityWebhookPayload)
      → ((race : Race) → race.capacity ≡ p.capacity → G.admits race)
      → Keeps G (RaceRest.apply_payload rfc3339 p)
  unfolding RaceRest.apply_payload reply
  apply_payload-Keeps rfc3339 p admitted w t =
      elim (Bool-cases
        (text_eq p.operation (codes "create") || text_eq p.operation (codes "update"))) [
          | inl write ↦ rw write (elim (Option-cases (RaceRest.payload_date rfc3339 p)) [
            | inl bad ↦ rw bad (here G k w t)
            | inr (date, read) ↦
                rw read (Races.sync-Keeps G k p.slug p.title date p.capacity admitted w t)
          ])
          | inr keep ↦ rw keep (elim (Bool-cases (text_eq p.operation (codes "delete"))) [
            | inl gone ↦ rw gone (Races.remove-Keeps G k p.slug w t)
            | inr other ↦ rw other (here G k w t)
          ])
        ]

  pub handle_webhook-Keeps :
      (rfc3339 : Text → Option Time) (decode : Text → Option SanityWebhookPayload) (secret : Text)
      (r : Request)
      → Syncs G decode r
      → Keeps G (RaceRest.require_secret secret r (RaceRest.handle_webhook rfc3339 decode r))
  unfolding RaceRest.require_secret RaceRest.handle_webhook
  handle_webhook-Keeps rfc3339 decode secret r syncs w t =
      elim (Bool-cases (text_eq r.webhook_secret secret)) [
        | inr wrong ↦ rw wrong (here G k w t)
        | inl right ↦ elim (Option-cases (bind_json decode (λ p. p.operation ∷ []) r)) [
          | inl bad ↦ rw (right, bad) (here G k w t)
          | inr (p, bound) ↦ elim (Bool-cases (is_empty p.slug)) [
            | inl missing ↦ rw (right, bound, missing) (here G k w t)
            | inr named ↦
                rw (right, bound, named)
                  (apply_payload-Keeps rfc3339 p (syncs p (decoded decode r p bound)) w t)
          ]
        ]
      ]

  pub handle_list-Keeps : Keeps G RaceRest.handle_list
  unfolding RaceRest.handle_list reply
  handle_list-Keeps w t = Races.list-Keeps G k w t

  pub create-Keeps :
      (pf : Platform) (lib : Library) (decode : Text → Option CreateUserRequest) (r : Request)
      → Keeps G (UserRest.create pf lib decode r)
  unfolding UserRest.create reply
  create-Keeps pf lib decode r w t =
      elim (Option-cases (bind_json decode (λ q. q.name ∷ q.email ∷ q.password ∷ []) r)) [
        | inl bad ↦ rw bad (here G k w t)
        | inr (q, bound) ↦
            rw bound (Accounts.register-Keeps G k pf lib q.name q.email q.password w t)
      ]

  pub list-Keeps : (pf : Platform) (r : Request) → Keeps G (UserRest.list pf r)
  unfolding UserRest.list UserRest.list_by_email reply
  list-Keeps pf r w t = elim (Option-cases (get_query r (codes "email"))) [
    | inl all ↦ rw (all, UserRest.list) (Accounts.list-Keeps G k w t)
    | inr (email, asked) ↦ rw (asked, UserRest.list) (Accounts.by_email-Keeps G k pf email w t)
  ]

  pub me-Keeps : (id : ℕ) → Keeps G (UserRest.me (some id))
  unfolding UserRest.me reply
  me-Keeps id w t = Accounts.by_id-Keeps G k id w t

  pub change_password-Keeps :
      (lib : Library) (decode : Text → Option ChangePasswordRequest) (id : ℕ) (r : Request)
      → Keeps G (UserRest.change_password lib decode (some id) r)
  unfolding UserRest.change_password reply
  change_password-Keeps lib decode id r w t =
      elim (Option-cases (bind_json decode (λ q. q.current_password ∷ q.new_password ∷ []) r)) [
        | inl bad ↦ rw bad (here G k w t)
        | inr (q, bound) ↦
            rw bound
              (Accounts.change_password-Keeps G k lib id q.current_password q.new_password w t)
      ]

  pub by_id-Keeps : (lib : Library) (raw_id : Text) → Keeps G (UserRest.by_id lib raw_id)
  unfolding UserRest.by_id reply
  by_id-Keeps lib raw_id w t = elim (Option-cases (lib.parse_uuid raw_id)) [
    | inl bad ↦ rw bad (here G k w t)
    | inr (id, read) ↦ rw read (Accounts.by_id-Keeps G k id w t)
  ]

  pub login-Keeps :
      (pf : Platform) (lib : Library) (s : Settings) (secure : Bool)
      (decode : Text → Option LoginRequest) (r : Request)
      → Keeps G (AuthRest.login pf lib s secure decode r)
  unfolding AuthRest.login
  login-Keeps pf lib s secure decode r w t =
      elim (Option-cases (bind_json decode (λ q. q.email ∷ q.password ∷ []) r)) [
        | inl bad ↦ rw bad (here G k w t)
        | inr (q, bound) ↦ rw bound (Sessions.login-Keeps G k pf lib s q.email q.password w t)
      ]

  pub refresh-Keeps :
      (lib : Library) (s : Settings) (secure : Bool) (r : Request)
      → Keeps G (AuthRest.refresh lib s secure r)
  unfolding AuthRest.refresh
  refresh-Keeps lib s secure r w t = elim (Option-cases r.refresh_cookie) [
    | inl missing ↦ rw missing (here G k w t)
    | inr (raw, sent) ↦ rw sent (Sessions.refresh-Keeps G k lib s raw w t)
  ]

  pub logout-Keeps :
      (lib : Library) (secure : Bool) (r : Request) → Keeps G (AuthRest.logout lib secure r)
  unfolding AuthRest.logout
  logout-Keeps lib secure r w t = elim (Option-cases r.refresh_cookie) [
    | inl missing ↦ rw missing (here G k w t)
    | inr (raw, sent) ↦ rw sent (Sessions.logout-Keeps G k lib raw w t)
  ]
