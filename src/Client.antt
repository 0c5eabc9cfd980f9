-- ===== src/Client.antt =====
-- bin/node.cc: a client that makes a transaction, checks it, and sends it to a node.
-- What it prints of hashes and keys, which nothing depends on, is left out.
pub mod Session
mod Examples
use pttp.Prelude.{ℕ, ◌≡◌, List, [], ◌∷◌, length, get_elem?, Option, none, some, Bool, ◌>>=◌}
use pttp.Prelude.Int.{ℤ, pos, negsuc}
use pttp.Bytes.{Bytes}
use pttp.Process
use pttp.Process.{SignKeyPair, create, create_transaction, process_transaction}
use pttp.Peers.{Content, hello, get_peers, ip_list, transaction, Libs}

-- `amounts`
abbrev pub demo_amounts : List ℤ
demo_amounts = pos 10 ∷ negsuc 3 ∷ pos 12 ∷ []

-- "sdfasdf"
abbrev pub demo_ip : Bytes
demo_ip = 115 ∷ 100 ∷ 102 ∷ 97 ∷ 115 ∷ 100 ∷ 102 ∷ []

-- What the program prints of its transaction and of the node's last answer.
pub record Printed : Type 0 where
  pub accepted : Bool
  pub amounts : List ℤ
  pub accounts : List Bytes
  pub first : Bytes
  pub n_ips : ℕ
  pub ip : Bytes

-- `getIpList()`, which throws on other messages.
unfoldable pub ips_of : Content → Option (List Bytes)
ips_of (ip_list ips) = some ips
ips_of _ = none

-- What is in the message when `create_transaction` has returned.
abbrev pub filled_in : Option Process.Transaction → Content
filled_in none = transaction (record { credit_set = []; signatures = [] })
filled_in (some tx) = transaction tx

-- `main`, for the three accounts that it draws. `talk` is `sock.send(data)` and then `sock.recv()`.
unfoldable pub main :
    {S : Type 0}
    → Libs
    → (S → Bytes → Option (Bytes × S))
    → List SignKeyPair
    → S
    → Option (Printed × S)
unfolding ips_of
main libs talk accounts s = do
  tx ← create_transaction libs.signer libs.wire accounts demo_amounts
  (ok, out) ←
      process_transaction libs.signer libs.wire tx
        (record { accounts = []; amounts = []; sigs = [] })
  first ← get_elem? out.accounts 0
  (result, s1) ← talk s (libs.messages.write (hello demo_ip))
  built ← create libs.signer libs.wire accounts demo_amounts
  (result, s2) ← talk s1 (libs.messages.write (filled_in built))
  (result, s3) ← talk s2 (libs.messages.write get_peers)
  content ← libs.messages.read result
  ips ← ips_of content
  ip ← get_elem? ips 0
  some (
    record {
      accepted = ok;
      amounts = out.amounts;
      accounts = out.accounts;
      first = first;
      n_ips = length ips;
      ip = ip;
    },
    s3,
  )
