-- ===== src/Rpc/Answers.antt =====
-- `RpcStorage` of crates/pevm/src/storage/rpc.rs as the `Storage` of a chain, from a new one on.
use pevm.Base.{ℕ, ◌≡◌, subst, Bool, not, Option, some, ◌==◌}
use pevm.Types.{Address, U256, B256}
use pevm.Storage.{Fetched}
use pevm.Rpc.{
  Provider, Codes, RpcStorage, new, basic, code_hash, code_by_hash, has_storage, storage,
  block_hash,
}
use pevm.Rpc.Refines.{
  Right, ChainAt, IsFaithful, Sound, BlockHash, chain_basic, chain_code_hash, CodeAnswer, IsServed,
  code_hash-IsServed, code_by_hash-CodeAnswer, basic-Basic, code_hash-Right, storage-Right,
  has_storage-Right, block_hash-BlockHash,
}

module _ {Bytes Code : Type 0} (provider : Provider Bytes) (codes : Codes Bytes Code)
    (is_precompile : Address → Bool) (empty_root_hash : B256) where
  -- A storage as calls leave it.
  pub data Used : RpcStorage Code → Type 0 where
    fresh : Used new
    basic_called :
        {s : RpcStorage Code} (a : Address)
        → Used s
        → Used (basic provider codes is_precompile empty_root_hash a s).1
    code_hash_called :
        {s : RpcStorage Code} (a : Address)
        → Used s
        → Used (code_hash provider codes is_precompile empty_root_hash a s).1
    has_storage_called :
        {s : RpcStorage Code} (a : Address)
        → Used s
        → Used (has_storage provider codes is_precompile empty_root_hash a s).1
    storage_called :
        {s : RpcStorage Code} (a : Address) (index : U256)
        → Used s
        → Used (storage provider codes is_precompile empty_root_hash a index s).1
    block_hash_called :
        {s s' : RpcStorage Code} {f : Fetched B256} (number : ℕ)
        → Used s
        → block_hash provider codes is_precompile empty_root_hash number s ≡ some (f, s')
        → Used s'

  module _ (chain : ChainAt Bytes) (faithful : IsFaithful provider chain) where
    new-Sound : Sound provider codes is_precompile empty_root_hash chain faithful new
    unfolding new
    new-Sound = record {
      accounts = λ a account e. cc;
      coded = λ a account e. cc;
      bytecodes = λ h code e. cc;
      hashes = λ number h e. cc;
    }

    hashed-Sound :
        (number : ℕ) (o : Option (Fetched B256 × RpcStorage Code)) (f : Fetched B256)
        (s : RpcStorage Code)
        → BlockHash provider codes is_precompile empty_root_hash chain faithful number o
        → o ≡ some (f, s)
        → Sound provider codes is_precompile empty_root_hash chain faithful s
    hashed-Sound number o f s h e =
        (subst (BlockHash provider codes is_precompile empty_root_hash chain faithful number) e h).1

    Used-Sound :
        {s : RpcStorage Code}
        → Used s
        → Sound provider codes is_precompile empty_root_hash chain faithful s
    Used-Sound fresh = new-Sound
    Used-Sound (basic_called {s} a u) =
        (basic-Basic provider codes is_precompile empty_root_hash chain faithful a s
          (Used-Sound u)).1
    Used-Sound (code_hash_called {s} a u) =
        (code_hash-Right provider codes is_precompile empty_root_hash chain faithful a s
          (Used-Sound u)).1
    Used-Sound (has_storage_called {s} a u) =
        (has_storage-Right provider codes is_precompile empty_root_hash chain faithful a s
          (Used-Sound u)).1
    Used-Sound (storage_called {s} a index u) =
        (storage-Right provider codes is_precompile empty_root_hash chain faithful a index s
          (Used-Sound u)).1
    Used-Sound (block_hash_called {s} {s'} {f} number u e) =
        hashed-Sound number _ f s'
          (block_hash-BlockHash provider codes is_precompile empty_root_hash chain faithful number s
            (Used-Sound u))
          e

    -- Let the node be asked at one block and answer, whenever it does not fail, what the chain has
    -- there. Then after any calls, whatever the failures among them, each further call that does not
    -- fail answers what the chain has: an account's balance and nonce, or none exactly if it is no
    -- precompile and has no balance, nonce and code; its code's hash; whether it has storage; a
    -- slot; a block's hash, where only a block that the chain has not makes the call panic. A code
    -- answered for a hash is that of an account whose code has this hash, and behind a call that
    -- answered a code's hash there is a code for it.
    pub rpc_refines :
        {s : RpcStorage Code}
        → Used s
        → (a : Address) (index : U256) (number : ℕ) (h : B256)
        → Right
            (basic provider codes is_precompile empty_root_hash a s).0
            (chain_basic provider codes is_precompile empty_root_hash chain faithful a)
          × Right
              (code_hash provider codes is_precompile empty_root_hash a s).0
              (chain_code_hash provider codes is_precompile empty_root_hash chain faithful a)
          × Right
              (has_storage provider codes is_precompile empty_root_hash a s).0
              (not (chain.storage_hash a == empty_root_hash))
          × Right
              (storage provider codes is_precompile empty_root_hash a index s).0
              (chain.slot a index)
          × BlockHash provider codes is_precompile empty_root_hash chain faithful number
              (block_hash provider codes is_precompile empty_root_hash number s)
          × CodeAnswer provider codes is_precompile empty_root_hash chain faithful h
              (code_by_hash provider codes is_precompile empty_root_hash h s).0
          × IsServed provider codes is_precompile empty_root_hash chain faithful
              (code_hash provider codes is_precompile empty_root_hash a s)
    rpc_refines {s} u a index number h =
        let sound = Used-Sound u in
        (
          (basic-Basic provider codes is_precompile empty_root_hash chain faithful a s sound).0,
          (code_hash-Right provider codes is_precompile empty_root_hash chain faithful a s sound).0,
          (has_storage-Right provider codes is_precompile empty_root_hash chain faithful a s
              sound).0,
          (storage-Right provider codes is_precompile empty_root_hash chain faithful a index s
              sound).0,
          block_hash-BlockHash provider codes is_precompile empty_root_hash chain faithful number s
              sound,
          code_by_hash-CodeAnswer provider codes is_precompile empty_root_hash chain faithful h s
              sound,
          code_hash-IsServed provider codes is_precompile empty_root_hash chain faithful a s sound,
        )
