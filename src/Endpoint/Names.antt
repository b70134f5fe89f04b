-- ===== src/Endpoint/Names.antt =====
-- The server name that is read off a path or an address.
use regatta_go.Prelude.{ℕ, ◌≡◌, refl, false, Option, none, some, [], ◌∷◌, ◌++◌, arith}
use regatta_go.Go.{Bytes, is_empty, has_prefix}
use regatta_go.Go.Strings.{has_byte, cut_last, strip_slashes, base, split_host}
use regatta_go.Endpoint.{extract_host_from_host_port, extract_host_from_path}

-- No slash, colon or bracket.
abbrev pub IsName : Bytes → Type 0
IsName s =
    (has_byte b'/' s ≡ false)
    × (has_byte b':' s ≡ false)
    × (has_byte b'[' s ≡ false)
    × (has_byte b']' s ≡ false)

cut_last-none : (c : ℕ) (s : Bytes) → has_byte c s ≡ false → cut_last c s ≡ none
unfolding cut_last
cut_last-none c [] h = refl
cut_last-none c (x ∷ xs) h = ground (arith, cut_last-none c xs)

cut_last-append :
    (c : ℕ) (s t : Bytes) → has_byte c t ≡ false → cut_last c (s ++ c ∷ t) ≡ some (s, t)
unfolding cut_last
cut_last-append c [] t h = rw (cut_last-none c t h) (ground arith)
cut_last-append c (x ∷ s) t h = rw (cut_last-append c s t h) refl

has_byte-append :
    (c : ℕ) (s t : Bytes)
    → has_byte c s ≡ false
    → has_byte c t ≡ false
    → has_byte c (s ++ t) ≡ false
has_byte-append c [] t p q = q
has_byte-append c (x ∷ s) t p q = ground (arith, has_byte-append c s t)

strip_slashes-plain : (t : Bytes) → has_byte b'/' t ≡ false → strip_slashes t ≡ t
unfolding strip_slashes
strip_slashes-plain [] h = refl
strip_slashes-plain (x ∷ t) h = ground (arith, strip_slashes-plain t)

strip_slashes-path :
    (dir : Bytes) (y : ℕ) (t : Bytes)
    → has_byte b'/' (y ∷ t) ≡ false
    → strip_slashes (dir ++ b'/' ∷ y ∷ t) ≡ dir ++ b'/' ∷ y ∷ t
unfolding strip_slashes
strip_slashes-path [] y t h = ground (arith, strip_slashes-plain t)
strip_slashes-path (x ∷ dir) y t h = rw (strip_slashes-path dir y t h) (rw (nonempty dir) refl)
  where
    nonempty : (d : Bytes) → is_empty (d ++ b'/' ∷ y ∷ t) ≡ false
    nonempty [] = refl
    nonempty (z ∷ d) = refl

-- The last element of a path.
base-last :
    (dir t : Bytes) → is_empty t ≡ false → has_byte b'/' t ≡ false → base (dir ++ b'/' ∷ t) ≡ t
unfolding base
base-last dir [] n h = cc
base-last [] (y ∷ t) n h = rw (strip_slashes-path [] y t h, cut_last-append b'/' [] (y ∷ t) h) refl
base-last (x ∷ dir) (y ∷ t) n h =
    rw (strip_slashes-path (x ∷ dir) y t h, cut_last-append b'/' (x ∷ dir) (y ∷ t) h) refl

first_bracket :
    (s t : Bytes) → has_byte b'[' s ≡ false → has_prefix (s ++ b':' ∷ t) (b'[' ∷ []) ≡ false
first_bracket [] t h = refl
first_bracket (x ∷ s) t h = ground arith

split_host-port :
    (name port : Bytes) → IsName name → IsName port → split_host (name ++ b':' ∷ port) ≡ some name
unfolding split_host
split_host-port name port (_, c, o, k) (_, c', o', k') =
    rw
      (
        cut_last-append b':' name port c',
        first_bracket name port o,
        c,
        has_byte-append b'[' name (b':' ∷ port) o o',
        has_byte-append b']' name (b':' ∷ port) k k',
      )
      refl

split_host-none : (name : Bytes) → IsName name → split_host name ≡ none
unfolding split_host
split_host-none name (_, c, _, _) = rw (cut_last-none b':' name c) refl

-- A port is a colon and a name, or nothing.
abbrev pub ported : Bytes → Option Bytes → Bytes
ported name none = name
ported name (some port) = name ++ b':' ∷ port

abbrev pub IsPort : Option Bytes → Type 0
IsPort none = Unit
IsPort (some port) = IsName port

extract-ported :
    (name : Bytes) (port : Option Bytes)
    → IsName name
    → IsPort port
    → extract_host_from_host_port (ported name port) ≡ name
unfolding extract_host_from_host_port
extract-ported name none n p = rw (split_host-none name n) refl
extract-ported name (some port) n p = rw (split_host-port name port n p) refl

ported-plain :
    (name : Bytes) (port : Option Bytes)
    → IsName name
    → IsPort port
    → has_byte b'/' (ported name port) ≡ false
ported-plain name none n p = n.0
ported-plain name (some port) n p = has_byte-append b'/' name (b':' ∷ port) n.0 p.0

ported-filled :
    (name : Bytes) (port : Option Bytes)
    → is_empty name ≡ false
    → is_empty (ported name port) ≡ false
ported-filled [] port h = cc
ported-filled (x ∷ name) none h = refl
ported-filled (x ∷ name) (some port) h = refl

-- The name of a socket file, without its directory and without a port behind it.
pub extract_host_from_path-name :
    (dir name : Bytes) (port : Option Bytes)
    → is_empty name ≡ false
    → IsName name
    → IsPort port
    → extract_host_from_path (dir ++ b'/' ∷ ported name port) ≡ name
unfolding extract_host_from_path
extract_host_from_path-name dir name port f n p =
    rw (base-last dir (ported name port) (ported-filled name port f) (ported-plain name port n p))
      (extract-ported name port n p)
