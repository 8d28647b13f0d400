-- ===== src/ServiceRequests/Laws.antt =====
-- What the query of a service request shows, and how it refuses.
use ai_oas.Base.{ℕ, ◌≡◌, refl, subst, inl, inr, List, [], ◌∷◌, ◌==◌, select, map, ==_iff}
use mathlib.Core.List.{Memᴰ}
use mathlib.Core.List.Memᴰ
use ai_oas.Tested.{select-Memᴰ}
use ai_oas.Models.{ServiceRequest, Contact}
use ai_oas.Tables.{Db}
use ai_oas.ServiceRequests.{joined, join_of}

-- A row of the join is a request with its contact.
pub record Joined (request_id : ℕ) (d : Db) (row : ServiceRequest × Contact) : Type 0 where
  pub request_listed : Memᴰ row.0 d.service_requests
  pub contact_listed : Memᴰ row.1 d.contacts
  pub named : row.0.id ≡ request_id
  pub linked : row.1.id ≡ row.0.contact_id

joined-Memᴰ :
    (requests : List ServiceRequest) (contacts : List Contact) (row : ServiceRequest × Contact)
    → Memᴰ row (joined requests contacts)
    → Memᴰ row.0 requests × Memᴰ row.1 contacts × (row.1.id ≡ row.0.contact_id)
joined-Memᴰ [] contacts row m = absurd (Memᴰ.not-nil m)
joined-Memᴰ (r ∷ rest) contacts row m =
    elim (Memᴰ.append_cases (map (λ c. (r, c)) (select (λ c. c.id == r.contact_id) contacts)) m) [
      | inl here ↦
          paired (Memᴰ.of_map (λ c. (r, c)) (select (λ c. c.id == r.contact_id) contacts) here)
      | inr later ↦
          let deep = joined-Memᴰ rest contacts row later in (Memᴰ.tail deep.0, deep.1, deep.2)
    ]
  where
    paired :
        (c : Contact) × Memᴰ c (select (λ c. c.id == r.contact_id) contacts) × ((r, c) ≡ row)
        → Memᴰ row.0 (r ∷ rest) × Memᴰ row.1 contacts × (row.1.id ≡ row.0.contact_id)
    paired (c, chosen, same) =
        let (listed, linked) = select-Memᴰ (λ c. c.id == r.contact_id) contacts c chosen in
        subst
          (λ (x : ServiceRequest × Contact).
            Memᴰ x.0 (r ∷ rest) × Memᴰ x.1 contacts × (x.1.id ≡ x.0.contact_id))
          same (Memᴰ.head refl, listed, (==_iff c.id r.contact_id).0 linked)

pub join_of-Joined :
    (request_id : ℕ) (d : Db) (row : ServiceRequest × Contact)
    → Memᴰ row (join_of request_id d)
    → Joined request_id d row
join_of-Joined request_id d row m =
    let (chosen, contact_listed, linked) =
      joined-Memᴰ (select (λ r. r.id == request_id) d.service_requests) d.contacts row m in
    let (listed, named) = select-Memᴰ (λ r. r.id == request_id) d.service_requests row.0 chosen in
    record {
      request_listed = listed;
      contact_listed = contact_listed;
      named = (==_iff row.0.id request_id).0 named;
      linked = linked;
    }
