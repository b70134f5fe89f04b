-- ===== src/Tls/Pool.antt =====
-- The pool of authorities: which certificates it holds, and that its loops end.
use mathlib.Core.List.{append-nil, append_assoc}
use regatta_go.Prelude.{
  ℕ, zero, suc, ◌≤◌, ◌<◌, ◌≡◌, ap, ◌∙◌, sym, true, none, some, List, [], ◌∷◌, ◌++◌, length, arith,
}
use regatta_go.Go.{Bytes}
use regatta_go.Env.{resp}
use regatta_go.Tls.{Crypto, add_certs, add_files, new_cert_pool, or_unreadable}

module _ (crypto : Crypto) where
  open crypto use {read_file, pem_decode, parse_certificate}

  -- The blocks of a text, each of which is a certificate.
  pub data Holds : Bytes → List Bytes → Type 0 where
    no_more : {text : Bytes} → pem_decode text ≡ none → Holds text []
    one_more :
        {text block rest : Bytes} {blocks : List Bytes}
        → pem_decode text ≡ some (block, rest)
        → parse_certificate block ≡ true
        → Holds rest blocks
        → Holds text (block ∷ blocks)

  -- The certificates of some files, in their order.
  pub data AllHold : List Bytes → List Bytes → Type 0 where
    no_files : AllHold [] []
    one_file :
        {file text : Bytes} {files blocks more : List Bytes}
        → read_file file ≡ some text
        → Holds text blocks
        → AllHold files more
        → AllHold (file ∷ files) (blocks ++ more)

  module _
      (consumes : (text block rest : Bytes)
        → pem_decode text ≡ some (block, rest)
        → length rest < length text) where
    blocks-le :
        {text : Bytes} {blocks : List Bytes} → Holds text blocks → length blocks ≤ length text
    blocks-le (no_more h) = omega arith
    blocks-le {text} (one_more {block} {rest} {blocks} h p more) =
        omega (arith, consumes text block rest h, blocks-le more)

    add_certs-Holds :
        (n : ℕ) (text : Bytes) (blocks pool : List Bytes)
        → Holds text blocks
        → length blocks < n
        → add_certs crypto n text pool ≡ resp (pool ++ blocks)
    unfolding add_certs
    add_certs-Holds zero text blocks pool h lt = absurd (omega arith)
    add_certs-Holds (suc n) text [] pool (no_more h) lt =
        rw (h, add_certs) (ap resp (sym (append-nil pool)))
    add_certs-Holds (suc n) text (block ∷ blocks) pool (one_more {rest} h p more) lt =
        rw (h, add_certs, p)
          (add_certs-Holds n rest blocks (pool ++ block ∷ []) more (omega arith)
            ∙ ap resp (append_assoc pool (block ∷ []) blocks))

    add_files-AllHold :
        {files certs : List Bytes} (pool : List Bytes)
        → AllHold files certs
        → add_files crypto files pool ≡ resp (pool ++ certs)
    unfolding add_files or_unreadable
    add_files-AllHold pool no_files = ap resp (sym (append-nil pool))
    add_files-AllHold pool (one_file {file} {text} {files} {blocks} {more} read held rest) =
        rw
          (
            read,
            add_certs-Holds (suc (length text)) text blocks pool held
                (let le = blocks-le held in omega arith),
          )
          (add_files-AllHold (pool ++ blocks) rest ∙ ap resp (append_assoc pool blocks more))

    -- If `pem.Decode` takes at least a byte with each block, and every file can be read and holds only
    -- certificates, the pool is made and holds exactly the certificates of the files, in their order:
    -- the inner loop ends.
    pub new_cert_pool-AllHold :
        (files certs : List Bytes) → AllHold files certs → new_cert_pool crypto files ≡ resp certs
    unfolding new_cert_pool
    new_cert_pool-AllHold files certs h = add_files-AllHold [] h
