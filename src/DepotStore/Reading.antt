-- ===== src/DepotStore/Reading.antt =====
-- Reads through the file system of crates/steam-depot-vfs/src/fs.rs over the chunk cache of
-- crates/steam-depot-vfs/src/chunk_store/cache.rs, as crates/steam-depot-vfs/src/context.rs builds them.
use steam_depot_vfs.Prelude.{ℕ, ◌+◌, ◌-◌, ◌≤◌, ◌<◌, ◌≡◌, min, arith, []}
use steam_depot_vfs.Depot.{Bytes, Text, DepotFile, DepotApi, Manifest}
use steam_depot_vfs.Outcome.{ok}
use steam_depot_vfs.Fs
use steam_depot_vfs.Fs.Read.{find_file, read, u64_mod, isize_max}
use steam_depot_vfs.Fs.Read.Slices.{between}
use steam_depot_vfs.Fs.Read.Layout.{HasSha, HoldsContent, ReadResult}
use steam_depot_vfs.Fs.Read.Content.{read_into-content}
use steam_depot_vfs.Cache.{fs_cache_store}
use steam_depot_vfs.Cache.Interfaces.{Env, State}
use steam_depot_vfs.Cache.Laws.{EnvLaws}
use steam_depot_vfs.Cache.Fetches.{Honest}
use steam_depot_vfs.Cache.Gets.{get-IsFaithful}

-- A read of a file of a snapshot, from an offset inside it, returns exactly the bytes of the file that
-- the manifest describes, or the failure of getting one of its chunks, as long as the manifest's hashes
-- determine the bytes of their chunks and the state of the chunk cache is `Honest` at the start: a
-- decoded chunk hashes to its name, and so does the body of any file on disk that decodes as a
-- frame naming that file. The CDN store or a layer over it may return anything, other files may hold
-- anything, and system calls may fail or a write be cut off, within the laws of the directory and of
-- the codec (`EnvLaws`). The state is honest again afterwards.
pub read_snapshot_lem :
    {D C I : Type 0} (env : Env D C I) (laws : EnvLaws env) (api : DepotApi) (m : Manifest)
    (path : Text) (f : DepotFile) (content : Bytes) (offset len : ℕ) (s : State D C I)
    → find_file (Fs.new m) path ≡ ok f
    → HoldsContent (λ sha b. env.codec.sha1 b ≡ sha) api f content
    → offset ≤ f.size
    → offset + len < u64_mod
    → min (offset + len) f.size - offset ≤ isize_max
    → Honest env laws s
    → let r = read (fs_cache_store env) api (Fs.new m) path offset len s in
      Honest env laws r.1
      × ReadResult
          (fs_cache_store env)
          (Honest env laws)
          (λ sha. HasSha sha (api.chunks f))
          (between offset (min (offset + len) f.size) content)
          r.0
read_snapshot_lem env laws api m path f content offset len s found holds inside fits room honest =
    unfold read in
    read_into-content (fs_cache_store env) (Honest env laws) (λ sha b. env.codec.sha1 b ≡ sha)
      (get-IsFaithful env laws) api (Fs.new m) path f content found holds offset len [] s inside
      fits (omega arith) honest
