-- ===== src/Ledger/Header.antt =====
-- bin/p2p.cc, `pttp::BlockHeader`, with `HardHash` of src/curve.cc.
-- A run is `none` where the message cannot be read.
use pttp.Prelude.{ℕ, ◌^◌, ◌<◌, ◌≡◌, refl, [], Option, some, ◌>>=◌}
use pttp.Bytes.{Bytes}
use pttp.Merkle.{GenericHasher}

-- `Block` of cap/messages.capnp.
pub record Block : Type 0 where
  pub prev_hash : Bytes
  pub transaction_hash : Bytes
  pub utxo_hash : Bytes
  pub nonce : Bytes
  pub time : ℕ

-- Cap'n Proto: a block is read back from its bytes.
pub record BlockWire : Type 0 where
  pub write_block : Block → Bytes
  pub read_block : Bytes → Option Block
  pub read-write_block : (b : Block) → b.time < 2 ^ 64 → read_block (write_block b) ≡ some b

pub record BlockHeader : Type 0 where
  pub hash : Bytes
  pub prev_hash : Bytes
  pub tx_hash : Bytes
  pub utxo_hash : Bytes
  pub nonce : Bytes
  pub t : ℕ
  pub height : ℕ

-- `BlockHeader()`
unfoldable pub new_header : BlockHeader
new_header = record {
  hash = [];
  prev_hash = [];
  tx_hash = [];
  utxo_hash = [];
  nonce = [];
  t = 0;
  height = 0;
}

-- `HardHash(Bytes &m)`, by the password hash at its limits.
unfoldable pub hard_hash : GenericHasher → (Bytes → Bytes → Bytes) → Bytes → Bytes
hard_hash hasher pwhash m = pwhash m (hasher.digest 16 m)

module _ (wire : BlockWire) where
  -- `from_bytes`, which assigns to `hash` what the message has as its previous hash.
  unfoldable pub read_header : BlockHeader → Bytes → Option BlockHeader
  read_header h b = wire.read_block b >>= λ block. some (record h {
    hash = block.prev_hash;
    tx_hash = block.transaction_hash;
    utxo_hash = block.utxo_hash;
    nonce = block.nonce;
    t = block.time;
  })

  -- `bytes()`
  unfoldable pub header_bytes : BlockHeader → Bytes
  header_bytes h = wire.write_block (record {
    prev_hash = h.prev_hash;
    transaction_hash = h.tx_hash;
    utxo_hash = h.utxo_hash;
    nonce = h.nonce;
    time = h.t;
  })

  -- `calculate_hash()`
  unfoldable pub calculate_hash : GenericHasher → (Bytes → Bytes → Bytes) → BlockHeader → Bytes
  unfolding hard_hash
  calculate_hash hasher pwhash h = hard_hash hasher pwhash (header_bytes h)

  -- A new header that reads the bytes of a header whose time has 64 bits has its fields but three: its hash is the
  -- previous hash of that header, it has no previous hash, and its height is 0. Its calculated hash is that of the header
  -- without a previous hash.
  pub read_header-header_bytes :
      (hasher : GenericHasher) (pwhash : Bytes → Bytes → Bytes) (h : BlockHeader)
      → h.t < 2 ^ 64
      → (h' : BlockHeader) × (read_header new_header (header_bytes h) ≡ some h')
        × (h' ≡ record h { hash = h.prev_hash; prev_hash = []; height = 0 })
        × (calculate_hash hasher pwhash h'
            ≡ calculate_hash hasher pwhash (record h { prev_hash = [] }))
  unfolding read_header header_bytes calculate_hash new_header
  read_header-header_bytes hasher pwhash h fits =
      let block : Block = record {
        prev_hash = h.prev_hash;
        transaction_hash = h.tx_hash;
        utxo_hash = h.utxo_hash;
        nonce = h.nonce;
        time = h.t;
      } in
      (
        record h { hash = h.prev_hash; prev_hash = []; height = 0 },
        rw (wire.read-write_block block fits) refl,
        refl,
        refl,
      )
