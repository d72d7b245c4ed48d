-- ===== src/Manager/Ranges.antt =====
-- What one answer to a Range request leaves of the file of a download over HTTP.
use aestor.Base.{
  ℕ, zero, suc, ◌≡◌, ◌≢◌, refl, ap, sym, ◌∙◌, ◌++◌, append-nil, append_assoc, false, Option, none,
  some, Bool-cases, lt→ltb, List, [], ◌∷◌, arith, length, drop, drop-append, ltb, list_eq, nat_eq,
  inl, inr, ◌⊎◌,
}
use aestor.Base.Result.{ok}
use aestor.Base.Text.{Text}
use aestor.Encryption.Chunks.{concat}
use aestor.Encryption.Crypto.{Bytes}
use aestor.Manager.HttpDownload.{
  HttpReply, finished, is_success, file_size, range_start, check_status, appends, opened,
  write_chunks,
}

abbrev pub content_of : Option Bytes → Bytes
content_of none = []
content_of (some content) = content

-- The file is a front of the whole.
abbrev pub IsPrefix : Bytes → Option Bytes → Type 0
IsPrefix whole file = (rest : Bytes) × (content_of file ++ rest ≡ whole)

-- The chunks make the content, or a front of it where the connection is cut.
abbrev pub Streams : Bytes → HttpReply → Type 0
Streams content reply =
    (rest : Bytes) × (concat reply.chunks ++ rest ≡ content) × (reply.broken ≡ none → rest ≡ [])

-- What a server with a fixed file answers to a Range: an error, the whole, or what is behind the start.
abbrev pub Serves : Bytes → Option ℕ → HttpReply → Type 0
Serves whole start reply =
    (is_success reply.status_code ≡ false)
    ⊎ (((reply.status_code ≡ 200) × Streams whole reply)
        ⊎ ((n : ℕ) × (start ≡ some n) × (reply.status_code ≡ 206) × Streams (drop n whole) reply))

-- The next chunk goes behind what is written.
move :
    (chunk : Bytes) (chunks : List Bytes) (content rest : Bytes)
    → (content ++ chunk) ++ (concat chunks ++ rest) ≡ content ++ (concat (chunk ∷ chunks) ++ rest)
move chunk chunks content rest =
    append_assoc content chunk (concat chunks ++ rest)
    ∙ ap (◌++◌ content) (sym (append_assoc chunk (concat chunks) rest))

pub write_chunks-IsPrefix :
    (left : Option ℕ) (broken : Option Text) (chunks : List Bytes) (content rest whole : Bytes)
    → content ++ (concat chunks ++ rest) ≡ whole
    → (broken ≡ none → rest ≡ [])
    → let (content', end) = write_chunks left broken chunks content in
      ((rest : Bytes) × (content' ++ rest ≡ whole)) × (end ≡ finished → content' ≡ whole)
unfolding write_chunks
write_chunks-IsPrefix left none [] content rest whole h full =
    ((rest, h), λ e. sym (append-nil content) ∙ ap (◌++◌ content) (sym (full refl)) ∙ h)
write_chunks-IsPrefix left (some e) [] content rest whole h full = ((rest, h), λ e. cc)
write_chunks-IsPrefix (some zero) broken (chunk ∷ chunks) content rest whole h full =
    (((chunk ++ concat chunks) ++ rest, h), λ e. cc)
write_chunks-IsPrefix (some (suc n)) broken (chunk ∷ chunks) content rest whole h full =
    write_chunks-IsPrefix (some n) broken chunks (content ++ chunk) rest whole
      (move chunk chunks content rest ∙ h) full
write_chunks-IsPrefix none broken (chunk ∷ chunks) content rest whole h full =
    write_chunks-IsPrefix none broken chunks (content ++ chunk) rest whole
      (move chunk chunks content rest ∙ h) full

-- A response that is not interrupted is read to its end.
pub write_chunks_ends :
    (broken : Option Text) (chunks : List Bytes) (content : Bytes)
    → broken ≡ none
    → (write_chunks none broken chunks content).1 ≡ finished
unfolding write_chunks
write_chunks_ends none [] content h = refl
write_chunks_ends (some e) [] content h = cc
write_chunks_ends broken (chunk ∷ chunks) content h =
    write_chunks_ends broken chunks (content ++ chunk) h

check_status_error :
    (code : ℕ) (file kept : Option Bytes)
    → is_success code ≡ false
    → check_status code file ≢ ok kept
unfolding check_status is_success
check_status_error code file kept bad status = ground arith

-- The file is kept as it is, but that the whole begins it anew.
check_status-kept :
    (code : ℕ) (file kept : Option Bytes)
    → check_status code file ≡ ok kept
    → (kept ≡ file) ⊎ (kept ≡ none)
unfolding check_status
check_status-kept code file kept status = ground arith

-- The whole is written behind nothing.
opened_200 : (file kept : Option Bytes) → check_status 200 file ≡ ok kept → opened 200 kept ≡ []
unfolding check_status file_size opened appends is_success
opened_200 none kept status = ground arith
opened_200 (some []) kept status = let k : kept ≡ some [] = cc status in rw k refl
opened_200 (some (b ∷ content)) kept status =
    let pos = lt→ltb 0 (suc (length content)) (omega arith) in
    let k : kept ≡ none = ground (arith, pos) in rw k refl

-- What is behind the start of a Range is written behind the file that the Range was asked for.
opened_206 :
    (file kept : Option Bytes) (n : ℕ)
    → range_start file ≡ some n
    → check_status 206 file ≡ ok kept
    → (opened 206 kept ≡ content_of file) × (n ≡ length (content_of file))
unfolding check_status file_size opened appends is_success range_start
opened_206 none kept n start status = ground arith
opened_206 (some content) kept n start status = elim (Bool-cases (ltb 0 (length content))) [
  | inl pos ↦
      let size : n ≡ length content = ground (arith, pos) in
      let k : kept ≡ some content = ground (arith, pos) in (rw k (ground (arith, pos)), size)
  | inr empty ↦ absurd (ground (arith, empty))
]

pub opened-whole :
    (whole : Bytes) (file kept : Option Bytes) (reply : HttpReply)
    → IsPrefix whole file
    → Serves whole (range_start file) reply
    → check_status reply.status_code file ≡ ok kept
    → (rest : Bytes) × (opened reply.status_code kept ++ (concat reply.chunks ++ rest) ≡ whole)
      × (reply.broken ≡ none → rest ≡ [])
opened-whole whole file kept reply pre (inl bad) status =
    absurd (check_status_error reply.status_code file kept bad status)
opened-whole whole file kept reply pre (inr (inl (code, (rest, all, full)))) status =
    let fresh = opened_200 file kept (rw code at status) in (rest, rw (code, fresh) all, full)
opened-whole whole file kept reply (left, pre) (inr (inr (n, start, code, (rest, part, full))))
      status =
    let (front, size) = opened_206 file kept n start (rw code at status) in
    let behind : drop n whole ≡ left =
      ap (drop n) (sym pre) ∙ drop-append (content_of file) left n size in
    (rest, rw (code, front, part, behind) pre, full)

pub kept-IsPrefix :
    (whole : Bytes) (file kept : Option Bytes) (code : ℕ)
    → IsPrefix whole file
    → check_status code file ≡ ok kept
    → IsPrefix whole kept
kept-IsPrefix whole file kept code pre status = elim (check_status-kept code file kept status) [
  | inl same ↦ rw same pre
  | inr gone ↦ rw gone (whole, refl)
]
