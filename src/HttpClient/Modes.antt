-- ===== src/HttpClient/Modes.antt =====
-- How far a program may change between `InvokrHttpClient` and `InvokrLibraryClient`
-- (crates/worker/src/client.rs): the service is the API of crates/api on one workspace.
pub mod Secrets
pub mod Endpoints
pub mod Deployed
use invokr.Base.{ℕ, ◌≡◌, refl, String, true, false, Option, some, ◌==◌}
use invokr.Base.Result.{Result, ok, err}
use invokr.Store.{Store}
use invokr.Errors.{AppError, status_and_code}
use invokr.HttpClient.{ApiRequest, Response, Send, sent, or_else_send, ◌>>=◌, is_success}

-- What reaches the client of what a handler answers.
abbrev pub Answers : {A : Type 0} → Result AppError A × Store → Option Response × Store → Type 0
Answers (ok a, x) answer = (r : Response) × (answer ≡ (some r, x)) × (is_success r.status ≡ true)
Answers (err e, x) answer =
    (r : Response) × (answer ≡ (some r, x)) × (r.status ≡ (status_and_code e).0)

-- A call of two requests whose first one succeeds, and one whose first one is refused as expected.
pub once :
    (send : Send Store) (q q2 : ApiRequest) (otherwise : ℕ) (c c2 : String) (s x : Store)
    (r : Response)
    → send q s ≡ (some r, x)
    → is_success r.status ≡ true
    → (sent send q >>= or_else_send send otherwise c c2 q2) s ≡ (ok tt, x)
once send q q2 otherwise c c2 s x r answer good = rw (answer, good) refl

pub twice :
    (send : Send Store) (q q2 : ApiRequest) (otherwise : ℕ) (c c2 : String) (s x y : Store)
    (r r2 : Response)
    → send q s ≡ (some r, x)
    → r.status ≡ otherwise
    → is_success otherwise ≡ false
    → (otherwise == otherwise) ≡ true
    → send q2 x ≡ (some r2, y)
    → is_success r2.status ≡ true
    → (sent send q >>= or_else_send send otherwise c c2 q2) s ≡ (ok tt, y)
twice send q q2 otherwise c c2 s x y r r2 answer status bad same answer2 good =
    rw (answer, status, bad, same, answer2, good) refl
