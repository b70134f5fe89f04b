-- ===== src/Endpoint/Unix.antt =====
-- Endpoints of unix sockets: their three spellings, and that no endpoint makes the code panic.
use regatta_go.Prelude.{
  ℕ, not, ◌≡◌, refl, ap, ◌∙◌, Bool, true, false, ◌||◌, Option, none, some, [], ◌∷◌, ◌++◌,
  if◌then◌else◌, inl, inr, Bool-cases, arith,
}
use mathlib.Core.List.{append_assoc}
use regatta_go.Go.{Go, ok, panic, is_ok, ◌>>=◌, Bytes, codes, is_empty, is_set, has_prefix}
use regatta_go.Go.Strings.{cut, contains, push_left}
use regatta_go.Endpoint.{
  extract_host_from_host_port, of_url, CredsRequirement, creds_require, creds_optional, Url,
  Translation, extract_host_from_path, translate_endpoint, interpret, unix_path, must_split2,
  two_parts, scheme_to_creds_requirement,
}
use regatta_go.Endpoint.Names.{IsName, IsPort, ported, extract_host_from_path-name}

-- `unix:path`, `unix://path` and `unix:///path`; `unixs` asks for certificates.
pub data Spelling : Type 0 where
  short legacy absolute : Spelling

abbrev pub scheme : Bool → Bytes
scheme false = codes "unix"
scheme true = codes "unixs"

abbrev pub spelled : Bool → Spelling → Bytes → Bytes
spelled secure short path = scheme secure ++ codes ":" ++ path
spelled secure legacy path = scheme secure ++ codes "://" ++ path
spelled secure absolute path = scheme secure ++ codes "://" ++ b'/' ∷ path

-- A short path does not begin with two slashes, a legacy one not with one.
abbrev pub fits : Spelling → Bytes → Bool
fits short path = not (has_prefix path (codes "//"))
fits legacy path = not (has_prefix path (codes "/"))
fits absolute path = true

abbrev pub address : Spelling → Bytes → Bytes
address short path = codes "unix:" ++ path
address legacy path = codes "unix:" ++ path
address absolute path = codes "unix://" ++ b'/' ∷ path

abbrev pub socket : Spelling → Bytes → Bytes
socket absolute path = b'/' ∷ path
socket _ path = path

abbrev pub requirement : Bool → CredsRequirement
requirement true = creds_require
requirement false = creds_optional

not-true : (b : Bool) → not b ≡ true → b ≡ false
not-true true h = cc
not-true false h = refl

third_slash :
    (path : Bytes) → has_prefix path (codes "//") ≡ false → has_prefix path (codes "///") ≡ false
third_slash [] h = refl
third_slash (x ∷ []) h = ground arith
third_slash (x ∷ y ∷ path) h = ground arith

pub translate-spelled :
    (parse_url : Bytes → Option Url) (secure : Bool) (how : Spelling) (path : Bytes)
    → fits how path ≡ true
    → translate_endpoint parse_url (spelled secure how path)
      ≡ ok (address how path, extract_host_from_path (socket how path), requirement secure)
unfolding translate_endpoint must_split2 scheme_to_creds_requirement
translate-spelled parse_url true absolute path h = refl
translate-spelled parse_url false absolute path h = refl
translate-spelled parse_url true legacy path h = rw (not-true _ h) refl
translate-spelled parse_url false legacy path h = rw (not-true _ h) refl
translate-spelled parse_url true short path h =
    rw (third_slash path (not-true _ h), not-true _ h) refl
translate-spelled parse_url false short path h =
    rw (third_slash path (not-true _ h), not-true _ h) refl

-- For a socket whose path is a directory, a slash and a file name that is not empty and free of
-- slashes, colons and brackets, with or without a port of the same kind, and whose spelling fits
-- its slashes: the address keeps the path and always spells the scheme `unix`, the server name is
-- the file name without directory and port, and certificates are needed exactly for `unixs`, in
-- each of the three spellings.
pub translate_endpoint-unix :
    (parse_url : Bytes → Option Url) (secure : Bool) (how : Spelling) (dir name : Bytes)
    (port : Option Bytes)
    → fits how (dir ++ b'/' ∷ ported name port) ≡ true
    → is_empty name ≡ false
    → IsName name
    → IsPort port
    → translate_endpoint parse_url (spelled secure how (dir ++ b'/' ∷ ported name port))
      ≡ ok (address how (dir ++ b'/' ∷ ported name port), name, requirement secure)
translate_endpoint-unix parse_url secure how dir name port h f n p =
    translate-spelled parse_url secure how (dir ++ b'/' ∷ ported name port) h
    ∙ ap (λ s. ok (address how (dir ++ b'/' ∷ ported name port), s, requirement secure))
        (by_spelling how)
  where
    by_spelling :
        (how : Spelling)
        → extract_host_from_path (socket how (dir ++ b'/' ∷ ported name port)) ≡ name
    by_spelling short = extract_host_from_path-name dir name port f n p
    by_spelling legacy = extract_host_from_path-name dir name port f n p
    by_spelling absolute = extract_host_from_path-name (b'/' ∷ dir) name port f n p

has_prefix-shorter : (s p q : Bytes) → has_prefix s (p ++ q) ≡ true → has_prefix s p ≡ true
has_prefix-shorter s [] q h = refl
has_prefix-shorter [] (x ∷ p) q h = h
has_prefix-shorter (y ∷ s) (x ∷ p) q h = ground (arith, has_prefix-shorter s p q)

-- A text that begins with some bytes and the separator contains the separator.
prefix-contains :
    (s p : Bytes) (c : ℕ) (sep : Bytes)
    → has_prefix s (p ++ c ∷ sep) ≡ true
    → contains (c ∷ sep) s ≡ true
prefix-contains [] [] c sep h = h
prefix-contains [] (x ∷ p) c sep h = h
prefix-contains (y ∷ s) [] c sep h = rw h refl
prefix-contains (y ∷ s) (x ∷ p) c sep h = elim (Bool-cases (has_prefix (y ∷ s) (c ∷ sep))) [
  | inl here ↦ rw here refl
  | inr later ↦ rw later (pushed (cut (c ∷ sep) s) (prefix-contains s p c sep (ground arith)))
]
  where
    pushed : (o : Option (Bytes × Bytes)) → is_set o ≡ true → is_set (push_left y o) ≡ true
    pushed none e = e
    pushed (some (a, b)) e = refl

is_ok-bind :
    {A B : Type 0} (m : Go A) (f : A → Go B)
    → is_ok m ≡ true
    → ((a : A) → is_ok (f a) ≡ true)
    → is_ok (m >>= f) ≡ true
is_ok-bind (ok a) f h g = g a
is_ok-bind (panic m) f h g = cc

must_split2-ok : (o : Option (Bytes × Bytes)) → is_set o ≡ true → is_ok (two_parts o) ≡ true
unfolding two_parts
must_split2-ok none e = e
must_split2-ok (some p) e = refl

unix_path-ok :
    (ep sep before : Bytes) → contains sep ep ≡ true → is_ok (unix_path ep sep before) ≡ true
unfolding unix_path must_split2
unix_path-ok ep sep before h =
    is_ok-bind (two_parts (cut sep ep)) _ (must_split2-ok (cut sep ep) h) (λ _. refl)

if_ok :
    {A : Type 0} (b : Bool) (x y : Go A)
    → (b ≡ true → is_ok x ≡ true)
    → (b ≡ false → is_ok y ≡ true)
    → is_ok (if b then x else y) ≡ true
if_ok true x y f g = f refl
if_ok false x y f g = g refl

-- One of two prefixes, each with the separator in it.
either-contains :
    (ep p q : Bytes) (c : ℕ) (sep rest : Bytes)
    → (has_prefix ep (p ++ ((c ∷ sep) ++ rest)) || has_prefix ep (q ++ ((c ∷ sep) ++ rest))) ≡ true
    → contains (c ∷ sep) ep ≡ true
either-contains ep p q c sep rest h = elim (Bool-cases (has_prefix ep (p ++ ((c ∷ sep) ++ rest)))) [
  | inl e ↦ at_separator p e
  | inr e ↦ at_separator q (or-right _ _ h e)
]
  where
    or-right : (a b : Bool) → (a || b) ≡ true → a ≡ false → b ≡ true
    or-right a b h e = ground arith

    at_separator :
        (p : Bytes) → has_prefix ep (p ++ ((c ∷ sep) ++ rest)) ≡ true → contains (c ∷ sep) ep ≡ true
    at_separator p e = prefix-contains ep p c sep (
        has_prefix-shorter ep (p ++ c ∷ sep) rest
          (ap (has_prefix ep) (append_assoc p (c ∷ sep) rest) ∙ e))

both_ok : {A : Type 0} (b : Bool) (x y : A) → is_ok (if b then ok x else ok y) ≡ true
both_ok true x y = refl
both_ok false x y = refl

-- No endpoint makes the translation panic: where the code splits a text at a separator, the text has
-- it.
pub translate_endpoint-total :
    (parse_url : Bytes → Option Url) (ep : Bytes) → is_ok (translate_endpoint parse_url ep) ≡ true
unfolding translate_endpoint
translate_endpoint-total parse_url ep =
    if_ok _ _ _
      (λ unix.
        if_ok _ _ _
          (λ h.
            unix_path-ok ep _ (codes "unix://")
              (either-contains ep (codes "unix") (codes "unixs") b':' (codes "//") (codes "/") h))
          (λ _.
            if_ok _ _ _
              (λ h.
                unix_path-ok ep _ (codes "unix:")
                  (either-contains ep (codes "unix") (codes "unixs") b':' (codes "//") [] h))
              (λ _.
                unix_path-ok ep _ (codes "unix:")
                  (either-contains ep (codes "unix") (codes "unixs") b':' [] [] unix))))
      (λ _.
        both_ok (contains (codes "://") ep) (of_url ep (parse_url ep))
          (ep, extract_host_from_host_port ep, creds_optional))

pub interpret-total :
    (parse_url : Bytes → Option Url) (ep : Bytes)
    → (a : Bytes × Bytes) × (interpret parse_url ep ≡ ok a)
unfolding interpret
interpret-total parse_url ep =
    given (translate_endpoint parse_url ep) (translate_endpoint-total parse_url ep)
  where
    given :
        (g : Go Translation)
        → is_ok g ≡ true
        → (a : Bytes × Bytes) × ((do (addr, name, requirement) ← g; ok (addr, name)) ≡ ok a)
    given (ok (addr, name, requirement)) h = ((addr, name), refl)
    given (panic m) h = cc
