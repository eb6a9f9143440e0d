-- ===== src/Btmp/Api.antt =====
-- tools/btmp-monitor/src/api.rs. A call of the client sends requests to a server of which nothing is
-- assumed: it may answer each request by all those before it. The state is the list of the requests
-- that were sent, the oldest first.
pub mod Chunks
pub mod Batch
pub mod Pages
use xdp_firewall.Prelude.{
  ℕ, zero, suc, ◌+◌, ◌/◌, ◌^◌, ◌<◌, ◌≡◌, ◌&&◌, ◌||◌, Bool, true, false, not, Option, none, some,
  List, [], ◌∷◌, ◌++◌, String, leb, ◌==◌, if◌then◌else◌, take, drop, length, Result, ok, err, Error,
  foreign, submitted_before, out_of_fuel,
}
use xdp_firewall.Prelude.Int.{ℤ}
use xdp_firewall.Text.{Text, codes}
use xdp_firewall.Net.Display.{print_decimal}
use xdp_firewall.Exec.{Exec, pure, lift, ◌>>=◌}

pub record CreateTempBanItem : Type 0 where
  pub cidr : Text
  pub protocol : Text
  pub port : Option ℤ
  pub duration_seconds : ℤ
  pub comment : Option Text

-- the cidr of each item, and the number of pages
pub record Page : Type 0 where
  pub items : List Text
  pub total_pages : ℕ

-- a URL, the token of the Authorization header, and the body
pub data HttpRequest : Type 0 where
  get : Text → Text → HttpRequest
  post : Text → Text → List CreateTempBanItem → HttpRequest

-- reqwest and the server behind it: the status and the body of an answer, `none` where sending
-- fails, and the decoding of a body as a page
pub record Http : Type 1 where
  pub Body : Type 0
  pub send : List HttpRequest → HttpRequest → Option (ℕ × Body)
  pub decode_page : Body → Option Page

-- total_pages is a u64
abbrev pub HttpLaws : Http → Type 0
HttpLaws http =
    (body : http.Body) (page : Page) → http.decode_page body ≡ some page → page.total_pages < 2 ^ 64

pub record ApiClient : Type 0 where
  pub base_url : Text
  pub token : Text

abbrev pub max_batch_items : ℕ
max_batch_items = 500

-- StatusCode::is_success
abbrev pub is_success : ℕ → Bool
is_success status = leb 200 status && leb status 299

-- `slice::chunks` of a list with `count` chunks
abbrev pub chunks_of {ℓ} : {A : Type ℓ} → ℕ → List A → List (List A)
chunks_of zero items = []
chunks_of (suc count) items =
    take max_batch_items items ∷ chunks_of count (drop max_batch_items items)

abbrev pub chunks {ℓ} : {A : Type ℓ} → List A → List (List A)
chunks items = chunks_of ((length items + 499) / max_batch_items) items

abbrev pub no_items : List Text → Bool
no_items [] = true
no_items (cidr ∷ cidrs) = false

abbrev pub or_context : {A : Type 0} → (Error → Error) → Result A → Result A
or_context f (ok a) = ok a
or_context f (err e) = err (f e)

-- `e.context(…)`
abbrev pub context : {S A : Type 0} → (Error → Error) → Exec S A → Exec S A
context f call s = (or_context f (call s).0, (call s).1)

abbrev pub or_fail : {A : Type 0} → String → Option A → Result A
or_fail what none = err (foreign what)
or_fail what (some a) = ok a

module _ (http : Http) (client : ApiClient) where
  open http use {Body, send, decode_page}

  abbrev pub Api : Type 0 → Type 0
  Api A = Exec (List HttpRequest) A

  unfoldable pub page_url : ℕ → Text
  unfolding print_decimal
  page_url page =
      client.base_url ++ codes "/temp-bans?page=" ++ print_decimal page ++ codes "&page_size=500"

  -- the answer to a request for a page
  abbrev pub read_page : Option (ℕ × Body) → Result Page
  read_page none = err (foreign "GET /temp-bans failed")
  read_page (some (status, body)) =
      if is_success status
      then or_fail "failed to decode /temp-bans response" (decode_page body)
      else err (foreign "GET /temp-bans returned an error")

  -- the body of the loop up to the page
  unfoldable pub get_page : ℕ → Api Page
  unfolding page_url
  get_page page requests = (
    read_page (send requests (get (page_url page) client.token)),
    requests ++ get (page_url page) client.token ∷ [],
  )

  abbrev pub is_last : ℕ → Page → Bool
  is_last page body = leb body.total_pages page || no_items body.items

  -- The loop, from a page on; the set is the list of its members.
  unfoldable pub list_from : ℕ → ℕ → List Text → Api (List Text)
  unfolding get_page
  list_from zero page cidrs = lift (err out_of_fuel)
  list_from (suc fuel) page cidrs = do
    body ← get_page page
    let rest = list_from fuel (page + 1) (cidrs ++ body.items)
    if is_last page body then pure (cidrs ++ body.items) else rest

  -- page is a u64, and so 2 ^ 64 rounds are enough
  unfoldable pub list_temp_ban_cidrs : Api (List Text)
  unfolding list_from
  list_temp_ban_cidrs = list_from (2 ^ 64) 1 []

  abbrev pub post_chunk : List CreateTempBanItem → HttpRequest
  post_chunk chunk = post (client.base_url ++ codes "/temp-bans/batch") client.token chunk

  abbrev pub read_created : ℕ → Option (ℕ × Body) → Result ℕ
  read_created count none = err (foreign "POST /temp-bans/batch failed")
  read_created count (some (status, body)) =
      if status == 201 then ok count else err (foreign "POST /temp-bans/batch returned an error")

  unfoldable pub create_temp_ban_chunk : List CreateTempBanItem → Api ℕ
  create_temp_ban_chunk chunk requests = (
    read_created (length chunk) (send requests (post_chunk chunk)),
    requests ++ post_chunk chunk ∷ [],
  )

  unfoldable pub create_chunks : ℕ → List (List CreateTempBanItem) → Api ℕ
  unfolding create_temp_ban_chunk
  create_chunks submitted [] = pure submitted
  create_chunks submitted (chunk ∷ more) = do
    n ← context (submitted_before submitted) (create_temp_ban_chunk chunk)
    create_chunks (submitted + n) more

  unfoldable pub create_temp_bans_batch : List CreateTempBanItem → Api ℕ
  unfolding create_chunks
  create_temp_bans_batch items = create_chunks 0 (chunks items)
