-- ===== src/Samples/Peers.antt =====
-- A concrete format for the messages between peers, at which the examples run: rows of credits, the first of
-- which says what the message is.
use pttp.Prelude.{
  ℕ, zero, suc, ◌≡◌, refl, ap, get_or, List, [], ◌∷◌, map, Option, none, some, ◌>>=◌,
}
use pttp.Prelude.Int.{pos, pos_part}
use pttp.Bytes.{Bytes}
use pttp.Process.{Credit}
use pttp.Peers.{
  BloomSet, Req, tx_set_hash, utxo_set_hash, block_range, Content, hello, welcome, get_peers,
  ip_list, ok, reject, transaction, block, text, req_set, req_set_filter, set_filter, MessageWire,
  Libs,
}
use pttp.Samples.{sum_hasher, digest_hasher, join}
use pttp.Samples.Blocks.{as_credits, as_block}
use pttp.Samples.Messages.{sample_wire, sample_signer, write_all, read_all, read-write_all}

abbrev pub row : ℕ → Bytes → Credit
row n a = record { account = a; amount = pos n }

abbrev pub number : Credit → ℕ
number c = pos_part c.amount

abbrev pub req_rows : Req → List Credit
req_rows (tx_set_hash h) = row 0 h ∷ []
req_rows (utxo_set_hash h) = row 1 h ∷ []
req_rows (block_range a b) = row 2 a ∷ row 0 b ∷ []

abbrev pub rows : Content → List Credit
rows (hello ip) = row 0 ip ∷ []
rows welcome = row 1 [] ∷ []
rows get_peers = row 2 [] ∷ []
rows (ip_list ips) = row 3 [] ∷ map (row 0) ips
rows ok = row 4 [] ∷ []
rows reject = row 5 [] ∷ []
rows (transaction tx) = row 6 tx.credit_set ∷ map (row 0) tx.signatures
rows (block b) = row 7 [] ∷ as_credits b
rows (text line) = row 8 line ∷ []
rows (req_set req b) = row 9 [] ∷ row b.p b.payload ∷ row 0 b.hash_key ∷ req_rows req
rows (Content.set hashes) = row 10 [] ∷ map (row 0) hashes
rows (req_set_filter req) = row 11 [] ∷ req_rows req
rows (set_filter n b) = row 12 [] ∷ row n b.hash_key ∷ row b.p b.payload ∷ []

abbrev pub accounts : List Credit → List Bytes
accounts cs = map Credit.account cs

abbrev pub req_kind : ℕ → Bytes → List Credit → Option Req
req_kind zero a cs = some (tx_set_hash a)
req_kind (suc zero) a cs = some (utxo_set_hash a)
req_kind (suc (suc n)) a [] = none
req_kind (suc (suc n)) a (c ∷ cs) = some (block_range a c.account)

abbrev pub req_of : List Credit → Option Req
req_of [] = none
req_of (c ∷ cs) = req_kind (number c) c.account cs

abbrev pub bloom_rows : List Credit → Option (Req × BloomSet)
bloom_rows (c ∷ d ∷ cs) = req_of cs >>= λ req.
    some (req, record { p = number c; payload = c.account; hash_key = d.account })
bloom_rows _ = none

abbrev pub filter_rows : List Credit → Option (ℕ × BloomSet)
filter_rows (c ∷ d ∷ cs) =
    some (number c, record { p = number d; payload = d.account; hash_key = c.account })
filter_rows _ = none

-- One entry for each kind of message.
abbrev pub readings : Bytes → List Credit → List (Option Content)
readings a cs =
    some (hello a)
    ∷ some welcome
    ∷ some get_peers
    ∷ some (ip_list (accounts cs))
    ∷ some ok
    ∷ some reject
    ∷ some (transaction (record { credit_set = a; signatures = accounts cs }))
    ∷ (as_block cs >>= λ b. some (block b))
    ∷ some (text a)
    ∷ (bloom_rows cs >>= λ r. some (req_set r.0 r.1))
    ∷ some (Content.set (accounts cs))
    ∷ (req_of cs >>= λ req. some (req_set_filter req))
    ∷ (filter_rows cs >>= λ r. some (set_filter r.0 r.1))
    ∷ []

abbrev pub content_of : List Credit → Option Content
content_of [] = none
content_of (c ∷ cs) = get_or (readings c.account cs) (number c) none

pub accounts-row : (xs : List Bytes) → accounts (map (row 0) xs) ≡ xs
accounts-row [] = refl
accounts-row (x ∷ xs) = ap (λ t. x ∷ t) (accounts-row xs)

pub req_of-req_rows : (req : Req) → req_of (req_rows req) ≡ some req
req_of-req_rows (tx_set_hash h) = refl
req_of-req_rows (utxo_set_hash h) = refl
req_of-req_rows (block_range a b) = refl

pub content_of-rows : (m : Content) → content_of (rows m) ≡ some m
content_of-rows (hello ip) = refl
content_of-rows welcome = refl
content_of-rows get_peers = refl
content_of-rows (ip_list ips) = ap (λ t. some (ip_list t)) (accounts-row ips)
content_of-rows ok = refl
content_of-rows reject = refl
content_of-rows (transaction tx) =
    ap (λ t. some (transaction (record tx { signatures = t }))) (accounts-row tx.signatures)
content_of-rows (block b) = refl
content_of-rows (text line) = refl
content_of-rows (req_set req b) = rw (req_of-req_rows req) refl
content_of-rows (Content.set hashes) = ap (λ t. some (Content.set t)) (accounts-row hashes)
content_of-rows (req_set_filter req) = rw (req_of-req_rows req) refl
content_of-rows (set_filter n b) = refl

-- The bytes of other messages are read as no set.
abbrev pub sample_messages : MessageWire
sample_messages = record {
  write = λ m. write_all (rows m);
  read = λ b. read_all b >>= content_of;
  read_set = λ b. none;
  read_set_filter = λ b. none;
  read-write = λ m fits. rw (read-write_all (rows m)) (content_of-rows m);
}

abbrev pub sample_libs : Libs
sample_libs = record {
  short = sum_hasher;
  hasher = digest_hasher;
  pwhash = join;
  signer = sample_signer;
  wire = sample_wire;
  messages = sample_messages;
  endings = record { of_check = λ result. some result; of_filters = λ fs. some fs };
}
