-- ===== src/Torrent.antt =====
-- pkg/bittorrent/torrent.go: how a node makes a torrent of a layer and downloads one, with CopyFile and
-- IsSparseFile of pkg/utils/file.go. The BitTorrent client and the operating system are parameters.
pub mod Loop
pub mod Copy
pub mod Made
pub mod Tests
use Prim.Native.Nat.{ℕ, zero, suc, ◌*◌}
use accelerboat.Base.{
  ◌≡◌, Bool, true, false, not, ◌&&◌, Option, none, some, List, [], ◌∷◌, ◌++◌, ltb, ◌==◌,
  if◌then◌else◌, length, get_or,
}
use accelerboat.Base.Keys.{lookup, insert, delete}
use accelerboat.Base.Text.{Text, codes, trim_suffix}
use accelerboat.Layer.Download.{Files, path_join, layer_file_name}

-- The loop of downloadTorrent. `slice` is completedSlice, newest first, and `closed` says whether `done`
-- is closed.
pub record Progress : Type 0 where
  pub slice : List ℕ
  pub closed : Bool

-- What a round of the select receives: the ticker, with the bytes completed, the recorder's ticker, the
-- end of the context, or the closed channel.
pub data Signal : Type 0 where
  tick : ℕ → Signal
  recorder_tick cancelled done : Signal

pub data Outcome : Type 0 where
  running : Progress → Outcome
  completed failed panicked : Outcome

-- No byte in the last 36 points, or none in the last 12 after a first.
unfoldable pub is_stalled : ℕ → List ℕ → Bool
is_stalled current slice =
    if current == 0
    then ltb 36 (length slice) && (current == get_or slice 35 0)
    else ltb 12 (length slice) && (current == get_or slice 11 0)

-- The case of the ticker; a second close of a channel panics.
unfoldable pub on_tick : ℕ → ℕ → Progress → Outcome
unfolding is_stalled
on_tick total current p =
    let slice = current ∷ p.slice in
    if current == total
    then (if p.closed then panicked else running (record p { closed = true }))
    else if is_stalled current slice
    then failed
    else running (record p { slice = slice })

-- One round of the loop. A receive from a channel that is open waits.
unfoldable pub on_signal : ℕ → Signal → Progress → Outcome
unfolding on_tick
on_signal total (tick current) p = on_tick total current p
on_signal total recorder_tick p = running p
on_signal total cancelled p = failed
on_signal total done p = if p.closed then completed else running p

unfoldable pub rounds : ℕ → List Signal → Progress → Outcome
unfolding on_signal
rounds total [] p = running p
rounds total (x ∷ xs) p = elim (on_signal total x p) [
  | running p' ↦ rounds total xs p'
  | completed ↦ completed
  | failed ↦ failed
  | panicked ↦ panicked
]

abbrev pub started : Progress
started = record { slice = []; closed = false }

-- What CopyFile asks of the operating system. `copied` is io.Copy of what a file holds: the bytes
-- written, and whether it returns no error. `blocks` gives the blocks of 512 bytes of a file.
pub record Disk : Type 0 where
  pub can_create : Text → Bool
  pub can_open : Text → Bool
  pub copied : Text → Text × Bool
  pub blocks : Text → ℕ

module _ (disk : Disk) where
  unfoldable pub copy_file : Text → Text → Files → Bool × Files
  copy_file source target fs =
      let removed = delete target fs in
      let created = insert target [] removed in
      if not (disk.can_create target)
      then (false, removed)
      else if not (disk.can_open source)
      then (false, created)
      else elim (lookup source created) [
        | none ↦ (false, created)
        | some bytes ↦ let (written, ok) = disk.copied bytes in (ok, insert target written created)
      ]

  unfoldable pub is_sparse_file : Text → Files → Option Bool
  is_sparse_file file_path fs = elim (lookup file_path fs) [
    | none ↦ none
    | some bytes ↦ some (ltb (disk.blocks file_path * 512 * 10) (length bytes))
  ]

  -- `downloaded` is the end of downloadTorrent, and the files of the node then.
  unfoldable pub handle_download_torrent : Text → Text → Text → Bool × Files → Bool × Files
  unfolding is_sparse_file copy_file
  handle_download_torrent torrent_path digest target_path (ok, fs) =
      let torrent_file = path_join torrent_path (layer_file_name digest) in
      let copy = copy_file torrent_file target_path fs in
      if not ok then (false, fs) else elim (is_sparse_file torrent_file fs) [
        | none ↦ (false, fs)
        | some sparse ↦ if sparse then (false, fs) else copy
      ]

-- A torrent of the client: the name in its info, and its metainfo in base64, where there are.
pub record Torrent : Type 0 where
  pub info_name : Option Text
  pub metainfo : Option Text

-- The client, for which nil torrents are left out. `build` makes the info of a file, `add` is AddTorrent
-- with its announce list, `merge` MergeSpec, and `verify` VerifyDataContext.
pub record Client : Type 1 where
  pub State : Type 0
  pub Info : Type 0
  pub torrents : State → List Torrent
  pub build : Text → Option Info
  pub add : Info → State → Option Torrent × State
  pub merge : Text → Torrent → State → Bool × State
  pub verify : Torrent → State → Bool × State

-- One round of the loop of returnLocalTorrents.
unfoldable pub add_local : Torrent → List (Text × (Torrent × Text)) → List (Text × (Torrent × Text))
add_local t m = elim t.info_name [
  | none ↦ m
  | some name ↦ elim t.metainfo [
    | none ↦ m
    | some base64 ↦ insert (trim_suffix name (codes ".tar.gzip")) (t, base64) m
  ]
]

unfoldable pub return_local_torrents :
    List Torrent → List (Text × (Torrent × Text)) → List (Text × (Torrent × Text))
unfolding add_local
return_local_torrents [] m = m
return_local_torrents (t ∷ ts) m = return_local_torrents ts (add_local t m)

module _ (client : Client) (disk : Disk) where
  unfoldable pub check_torrent_local_exist : Text → client.State → Option (Torrent × Text)
  unfolding return_local_torrents
  check_torrent_local_exist digest s = lookup digest (return_local_torrents (client.torrents s) [])

  unfoldable pub generate_serve_torrent :
      Text → Text → Files → client.State → Option Torrent × client.State
  generate_serve_torrent digest layer_file fs s = elim (lookup layer_file fs) [
    | none ↦ (none, s)
    | some bytes ↦ elim (client.build bytes) [
      | none ↦ (none, s)
      | some info ↦
          let (added, s1) = client.add info s in
          elim added [
            | none ↦ (none, s1)
            | some t ↦
                let (merged, s2) = client.merge digest t s1 in
                let (verified, s3) = client.verify t s2 in
                if not merged then (none, s2) else if verified then (some t, s3) else (none, s3)
          ]
    ]
  ]

  -- The rounds that are left of the three.
  unfoldable pub generate_rounds :
      ℕ → Text → Text → Files → client.State → Option Torrent × client.State
  unfolding generate_serve_torrent check_torrent_local_exist
  generate_rounds zero digest layer_file fs s = (none, s)
  generate_rounds (suc k) digest layer_file fs s =
      let (made, s') = generate_serve_torrent digest layer_file fs s in
      elim made [
        | none ↦ (none, s')
        | some t ↦ elim (check_torrent_local_exist digest s') [
          | some found ↦ (some t, s')
          | none ↦ generate_rounds k digest layer_file fs s'
        ]
      ]

  unfoldable pub handle_generate_torrent :
      Text → Text → Text → Files → client.State → Option Text × (Files × client.State)
  unfolding generate_rounds copy_file
  handle_generate_torrent torrent_path digest source_file fs s =
      let torrent_file = path_join torrent_path (layer_file_name digest) in
      let (copied, fs') = copy_file disk source_file torrent_file fs in
      let (served, s') = generate_rounds 3 digest torrent_file fs' s in
      elim (check_torrent_local_exist digest s) [
        | some (t, base64) ↦ (some base64, (fs, s))
        | none ↦
            if not copied
            then (none, (fs', s))
            else elim served [ none ↦ (none, (fs', s')) | some t ↦ (t.metainfo, (fs', s')) ]
      ]
