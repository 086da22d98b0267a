-- ===== src/Neis/Curl.antt =====
-- server/neis_api.c: perform_curl_request, and the callback that collects the body. What libcurl does
-- with a transfer is a record.
use school_meals.Base.{
  ℕ, ◌≡◌, refl, ◌∙◌, ap, Bool, true, false, not, Option, none, some, List, [], ◌∷◌, ◌++◌, sym,
  append-nil, append_assoc, ◌==◌, if◌then◌else◌, length, ==_refl,
}
use school_meals.CString.{Bytes}

-- A call of the callback: the bytes, and whether realloc finds room for them
pub record Chunk : Type 0 where
  pub contents : Bytes
  pub allocated : Bool

pub record Transfer : Type 0 where
  -- curl_easy_init does not return NULL.
  pub initialised : Bool
  pub chunks : List Chunk
  -- curl_easy_perform returns CURLE_OK, if the callback has taken all it was given.
  pub completes : Bool

-- struct MemoryStruct: `none` is the byte of malloc(1), which nothing has written yet.
abbrev pub MemoryStruct : Type 0
MemoryStruct = Option Bytes

abbrev pub collected : MemoryStruct → Bytes
collected none = []
collected (some memory) = memory

-- The new memory, and the number that the callback returns
unfoldable pub write_memory_callback : Chunk → MemoryStruct → MemoryStruct × ℕ
write_memory_callback chunk mem =
    if chunk.allocated
    then (some (collected mem ++ chunk.contents), length chunk.contents)
    else (mem, 0)

-- libcurl ends the transfer with an error where the callback returns another number than it was
-- given: the memory, and whether that did not happen.
unfoldable pub run_callbacks : List Chunk → MemoryStruct → MemoryStruct × Bool
unfolding write_memory_callback
run_callbacks [] mem = (mem, true)
run_callbacks (chunk ∷ chunks) mem =
    let (mem', taken) = write_memory_callback chunk mem in
    let rest = run_callbacks chunks mem' in
    if taken == length chunk.contents then rest else (mem', false)

abbrev pub response_of : MemoryStruct → Option (Option Bytes)
response_of none = none
response_of (some memory) = some (some memory)

-- The outer `none` is a response whose only byte was never written, the inner one the value false.
unfoldable pub perform_curl_request : Transfer → Option (Option Bytes)
unfolding run_callbacks
perform_curl_request transfer =
    if not transfer.initialised
    then some none
    else (let (mem, taken) = run_callbacks transfer.chunks none in
        if not taken
        then some none
        else if not transfer.completes
        then some none
        else response_of mem)

abbrev pub body : List Bytes → Bytes
body [] = []
body (s ∷ rest) = s ++ body rest

abbrev pub given : List Bytes → List Chunk
given [] = []
given (s ∷ rest) = record { contents = s; allocated = true } ∷ given rest

run_callbacks-body :
    (texts : List Bytes) (memory : Bytes)
    → run_callbacks (given texts) (some memory) ≡ (some (memory ++ body texts), true)
unfolding run_callbacks write_memory_callback
run_callbacks-body [] memory = ap (λ t. (some t, true)) (sym (append-nil memory))
run_callbacks-body (s ∷ rest) memory = rw (==_refl (length s)) (
    run_callbacks-body rest (memory ++ s)
    ∙ ap (λ t. (some t, true)) (append_assoc memory s (body rest)))

-- A transfer that completes, whose texts all find room, and that has at least one of them, has the
-- texts one after the other as its response.
perform_curl_request-body :
    (s : Bytes) (rest : List Bytes)
    → perform_curl_request
        (record { initialised = true; chunks = given (s ∷ rest); completes = true })
      ≡ some (some (body (s ∷ rest)))
unfolding perform_curl_request run_callbacks write_memory_callback
perform_curl_request-body s rest = rw (==_refl (length s), run_callbacks-body rest s) refl
