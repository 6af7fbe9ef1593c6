-- ===== src/Participant/Listing/Keys.antt =====
-- The primary key of the people, under the one statement that writes them.
use go_finish_line_api.Prelude.{
  ℕ, ◌≡◌, refl, false, List, [], ◌∷◌, ◌++◌, map, any, All, All-append, ◌==◌, Bool-cases, inl, inr,
  arith, if◌then◌else◌,
}
use go_finish_line_api.Text.{Platform, citext_eq}
use go_finish_line_api.Participant.Person.{Participant}
use go_finish_line_api.Participant.Repository.{upsert_sql, refresh}
use go_finish_line_api.Participant.Listing.Lines.{IsKeyed}
use go_finish_line_api.Store.{Db}

All-map_ids :
    (id : ℕ) (f : Participant → Participant)
    → ((q : Participant) → ((f q).id == id) ≡ (q.id == id))
    → (people : List Participant) → All (λ q. (q.id == id) ≡ false) people
    → All (λ q. (q.id == id) ≡ false) (map f people)
All-map_ids id f keep [] h = tt
All-map_ids id f keep (q ∷ people) (h, hs) = (rw (keep q) h, All-map_ids id f keep people hs)

IsKeyed-map :
    (f : Participant → Participant)
    → ((q : Participant) → (f q).id ≡ q.id)
    → (people : List Participant) → IsKeyed people
    → IsKeyed (map f people)
IsKeyed-map f keep [] k = tt
IsKeyed-map f keep (p ∷ people) (apart, k) = (
  rw (keep p) (All-map_ids p.id f (λ q. rw (keep q) refl) people apart),
  IsKeyed-map f keep people k,
)

IsKeyed-append :
    (p : Participant) (people : List Participant)
    → any (λ q. q.id == p.id) people ≡ false
    → IsKeyed people
    → IsKeyed (people ++ p ∷ [])
IsKeyed-append p [] free k = (tt, tt)
IsKeyed-append p (q ∷ people) free (apart, k) = (
  All-append (λ x. (x.id == q.id) ≡ false) people (p ∷ []) apart (ground (arith, free), tt),
  IsKeyed-append p people (ground (arith, free)) k,
)

-- No two people get one id.
pub upsert_sql-IsKeyed :
    (pf : Platform) (p : Participant) (db : Db)
    → IsKeyed db.participants
    → IsKeyed (upsert_sql pf p db).1.participants
unfolding upsert_sql
upsert_sql-IsKeyed pf p db k =
    elim (Bool-cases (any (λ old. citext_eq pf old.email p.email) db.participants)) [
      | inl known ↦ rw known (
          IsKeyed-map (λ old. if citext_eq pf old.email p.email then refresh p old else old)
            (λ old. ground arith) db.participants k)
      | inr new ↦ rw new (elim (Bool-cases (any (λ old. old.id == p.id) db.participants)) [
        | inl taken ↦ rw taken k
        | inr free ↦ rw free (IsKeyed-append p db.participants free k)
      ])
    ]
