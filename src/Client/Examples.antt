-- ===== src/Client/Examples.antt =====
-- The theorem on a client at a node.
use pttp.Prelude.{◌≡◌, refl, [], ◌∷◌, some, true}
use pttp.Chain
use pttp.Peers.{Node, ok, transaction}
use pttp.Client.{demo_amounts, Printed, main}
use pttp.Client.Session.{talk_to, greeted, demo_tx, main-serve}
use pttp.Samples.Messages.{pair_of}
use pttp.Samples.Peers.{sample_libs, sample_messages}

abbrev alone : Node
alone = record {
  connections = [];
  my_ip = 1 ∷ [];
  ips = [];
  seen = [];
  full_set = [];
  manager_gtd = record { tasks = [] };
  block_chain = Chain.new;
  reconsiler = record { hash_reconsilers = [] };
}

main-serve_example :
    (p : Printed) × (main sample_libs
        (talk_to sample_libs (6 ∷ []) (5 ∷ []))
        (pair_of (3 ∷ []) ∷ pair_of (4 ∷ []) ∷ pair_of (5 ∷ []) ∷ [])
        alone
      ≡ some (p, greeted alone))
    × (p.accepted ≡ true)
    × (p.amounts ≡ demo_amounts)
    × (p.accounts ≡ (3 ∷ []) ∷ (4 ∷ []) ∷ (5 ∷ []) ∷ [])
    × (talk_to sample_libs (6 ∷ []) (5 ∷ []) (greeted alone) (
          sample_messages.write (
            transaction
              (demo_tx sample_libs (pair_of (3 ∷ [])) (pair_of (4 ∷ [])) (pair_of (5 ∷ [])))))
        ≡ some (sample_messages.write ok, greeted alone))
main-serve_example =
    main-serve sample_libs (pair_of (3 ∷ [])) (pair_of (4 ∷ [])) (pair_of (5 ∷ [])) (6 ∷ [])
      (5 ∷ []) alone ((3 ∷ [], refl), ((4 ∷ [], refl), ((5 ∷ [], refl), tt)))
