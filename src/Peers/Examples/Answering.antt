-- ===== src/Peers/Examples/Answering.antt =====
-- `serve` at a request for a set, with a filter that is long enough and with one that is not.
use pttp.Prelude.{List, ◌++◌, length, replicate, ◌%◌, none, ◌≡◌, refl, arith, [], ◌∷◌, some, none}
use pttp.Bytes.{equal}
use pttp.Maps.{lookup}
use pttp.Peers.{hello, Content, req_set, Libs, BloomSet, tx_set_hash}
use pttp.Peers.Serving.{serve}
use pttp.Peers.Requests.{envelope}
use pttp.Samples.Queues.{sample_zmq}
use pttp.Sockets.{Frame}
use pttp.Peers.Rounds.{
  AreUp, Request, Server, keys_of, asked, replies, serve_rounds, serve_rounds-replies,
}
use pttp.Peers.Faults.{serve-short_filter}
use pttp.Peers.Answering.{IsServable, IsFull}
use pttp.Samples.{sum}
use pttp.Samples.Peers.{sample_libs, sample_messages}
use pttp.Peers.Examples.{holder, holder_keeps}

abbrev full_libs : Libs
full_libs = record sample_libs { pwhash = λ m salt. replicate 32 (sum m % 256) }

full_libs-IsFull : IsFull full_libs
full_libs-IsFull m salt = refl

-- A filter of three hits, all off, and one that claims nine hits in its only byte.
abbrev three_hits : BloomSet
three_hits = record { p = 3; payload = 0 ∷ []; hash_key = 5 ∷ [] }

abbrev nine_hits : BloomSet
nine_hits = record { p = 9; payload = 0 ∷ []; hash_key = 5 ∷ [] }

three_hits-IsServable : IsServable full_libs holder (req_set (tx_set_hash (8 ∷ [])) three_hits)
unfolding lookup equal
three_hits-IsServable = (omega arith, omega arith, holder_keeps)

serve-short_filter_example :
    serve sample_libs
      (5 ∷ [])
      (envelope (6 ∷ []) (sample_messages.write (req_set (tx_set_hash (8 ∷ [])) nine_hits)))
      holder
    ≡ none
serve-short_filter_example =
    serve-short_filter sample_libs (6 ∷ []) (5 ∷ []) (tx_set_hash (8 ∷ [])) nine_hits holder
      (omega arith) (omega arith)

-- A greeting, and then the request for a set.
abbrev two_requests : List Request
two_requests =
    record {
      sender = 6 ∷ [];
      body = sample_messages.write (hello (4 ∷ []));
      content = hello (4 ∷ []);
      key = 5 ∷ [];
    }
    ∷ record {
      sender = 7 ∷ [];
      body = sample_messages.write (req_set (tx_set_hash (8 ∷ [])) three_hits);
      content = req_set (tx_set_hash (8 ∷ [])) three_hits;
      key = 5 ∷ [];
    }
    ∷ []

abbrev server : Server (List Frame)
server = record { into = asked two_requests; from = []; node = holder }

serve_rounds-replies_example :
    (s' : Server (List Frame)) × (cs : List Content) × (serve_rounds sample_zmq full_libs 3
        (keys_of two_requests)
        server
      ≡ some s')
    × (length cs ≡ length two_requests)
    × AreUp sample_zmq s'
    × (sample_zmq.in_transit s'.into ≡ [])
    × (sample_zmq.in_transit s'.from ≡ [] ++ replies full_libs two_requests cs)
    × (s'.node.block_chain ≡ holder.block_chain)
serve_rounds-replies_example =
    serve_rounds-replies sample_zmq full_libs two_requests server (λ n. refl) full_libs-IsFull
      (
        (sample_messages.read-write (hello (4 ∷ [])) tt, tt),
        (
          (
            sample_messages.read-write (req_set (tx_set_hash (8 ∷ [])) three_hits) (omega arith),
            three_hits-IsServable,
          ),
          tt,
        ),
      )
      refl (refl, refl)
