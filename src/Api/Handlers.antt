-- ===== src/Api/Handlers.antt =====
-- api/handlers.go: the answer to a request with the path value `id`. The store is what
-- `GetLatestFacts` answers; the JSON text of a body is left to the encoder.
use rewsr_maxfields.Base.{
  ℕ, ◌≡◌, ◌≢◌, ◌↔◌, ◌⊎◌, inl, inr, refl, Option, none, some, List, [], ◌∷◌, ◌++◌, arith, Str, str,
  is_empty, if◌then◌else◌,
}
use rewsr_maxfields.Facts.Types.{ServerFacts, Time}
use rewsr_maxfields.Facts.Build.{Result, ok, err}
use rewsr_maxfields.Store.{Row, Table, IsNewestPick, save_facts, get_latest_facts, rows_of}
use rewsr_maxfields.Store.Save.{row_time}
use rewsr_maxfields.Store.Latest.{AllBefore, get_latest_facts-save_facts}
use rewsr_maxfields.Api.{PublicServer, HardwareServer, public_view, hardware_view}

pub data Body : Type 0 where
  public : PublicServer → Body
  hardware : HardwareServer → Body
  error : Str → Body

pub record Response : Type 0 where
  pub status : ℕ
  pub body : Body

-- `writeJSON` and `writeError`: the header, the status and the encoded body.
abbrev pub write_json : ℕ → Body → Response
write_json status v = record { status = status; body = v }

abbrev pub write_error : ℕ → Str → Response
write_error status msg = write_json status (error msg)

Result-cases : {A : Type 0} (r : Result A) → ((e : Str) × (r ≡ err e)) ⊎ ((a : A) × (r ≡ ok a))
Result-cases (err e) = inl (e, refl)
Result-cases (ok a) = inr (a, refl)

module _ {V : Type 0} (get_latest_facts : Str → Result (ServerFacts V)) where
  unfoldable pub handle_get_server : Str → Response
  handle_get_server id =
      if is_empty id
      then write_error 400 (str "server id required")
      else elim (get_latest_facts id) [
        | err _ ↦ write_error 404 (str "no facts on record for server " ++ id)
        | ok f ↦ write_json 200 (public (public_view (some f)))
      ]

  unfoldable pub handle_get_server_hardware : Str → Response
  handle_get_server_hardware id =
      if is_empty id
      then write_error 400 (str "server id required")
      else elim (get_latest_facts id) [
        | err _ ↦ write_error 404 (str "no facts on record for server " ++ id)
        | ok f ↦ write_json 200 (hardware (hardware_view (some f)))
      ]

  -- What the status says of the request and of the store.
  abbrev pub Answered : Str → Response → (ServerFacts V → Body) → Type 0
  Answered id r view =
      ((r.status ≡ 400) ↔ (id ≡ []))
      × ((r.status ≡ 404) ↔ ((id ≢ []) × ((e : Str) × (get_latest_facts id ≡ err e))))
      × ((f : ServerFacts V) → id ≢ [] → get_latest_facts id ≡ ok f → r ≡ write_json 200 (view f))

  answer-Answered :
      (id : Str) (view : ServerFacts V → Body) (r : Result (ServerFacts V))
      → get_latest_facts id ≡ r
      → Answered id
          (if is_empty id then write_error 400 (str "server id required") else elim r [
            | err _ ↦ write_error 404 (str "no facts on record for server " ++ id)
            | ok f ↦ write_json 200 (view f)
          ])
          view
  answer-Answered [] view r e = (
    (λ _. refl, λ _. refl),
    (λ e. ground arith, λ h. absurd (h.0 refl)),
    λ f h _. absurd (h refl),
  )
  answer-Answered (c ∷ id) view (err m) e = (
    (λ z. ground arith, λ z. ground arith),
    (λ _. (λ z. ground arith, (m, e)), λ _. refl),
    λ f h z. ground (arith, e, z),
  )
  answer-Answered (c ∷ id) view (ok f) e = (
    (λ z. ground arith, λ z. ground arith),
    (λ z. ground arith, λ (h, (m, z)). ground (arith, e, z)),
    λ g h z. ground (arith, e, z),
  )

  -- Both endpoints answer 400 exactly to an empty id, 404 exactly to any other id for which
  -- `GetLatestFacts` returns an error, whichever error that is, and otherwise 200 with their view of the
  -- facts that it returns; so they always agree on the status.
  pub handle_get_server_lem :
      (id : Str)
      → Answered id (handle_get_server id) (λ f. public (public_view (some f)))
        × Answered id (handle_get_server_hardware id) (λ f. hardware (hardware_view (some f)))
        × ((handle_get_server id).status ≡ (handle_get_server_hardware id).status)
  unfolding handle_get_server handle_get_server_hardware
  handle_get_server_lem id = (
    answer-Answered id _ (get_latest_facts id) refl,
    answer-Answered id _ (get_latest_facts id) refl,
    statuses id,
  )
    where
      statuses : (id : Str) → (handle_get_server id).status ≡ (handle_get_server_hardware id).status
      statuses [] = refl
      statuses (c ∷ id) = elim (Result-cases (get_latest_facts (c ∷ id))) [
        | inl (e, h) ↦ ground (arith, h)
        | inr (f, h) ↦ ground (arith, h)
      ]

-- After `SaveFacts` of facts with an id, which the decoder restores and which are newer than every row
-- of their server, a request for the server answers 200 with the view of those very facts.
pub handle_get_server-save_facts :
    {V : Type 0} (encode : ServerFacts V → Result Str) (decode : Str → Result (ServerFacts V))
    (pick : List Row → Option Row)
    → IsNewestPick pick
    → (now : Time) (f : ServerFacts V) (text : Str) (t : Table) → f.server_id ≢ []
    → encode f ≡ ok text
    → decode text ≡ ok f
    → AllBefore (row_time now f) (rows_of f.server_id t.rows)
    → let get = get_latest_facts decode pick none (save_facts encode now none (some f) t).1 in
      (handle_get_server get f.server_id ≡ write_json 200 (public (public_view (some f))))
      × (handle_get_server_hardware get f.server_id
          ≡ write_json 200 (hardware (hardware_view (some f))))
handle_get_server-save_facts encode decode pick law now f text t named e d newer =
    let get = get_latest_facts decode pick none (save_facts encode now none (some f) t).1 in
    let stored = get_latest_facts-save_facts pick law encode decode now f text t named e d newer in
    let ((_, _, public_ok), (_, _, hardware_ok), _) = handle_get_server_lem get f.server_id in
    (public_ok f named stored, hardware_ok f named stored)
