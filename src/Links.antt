-- ===== src/Links.antt =====
-- ConstructBlobsAndFileFile of internal/dao/file_dao.go and the calls of pkg/util/repo_util.go that it
-- makes: the file of a commit is a symbolic link to the file of the bytes.
-- A path holds a regular file or a link, and links of links are not made by this code. A call of the
-- operating system may fail without an effect; which ones do is an argument. Directories are left out.
pub mod Laws
use text.Mathlib.Text.{◌==◌ as str_eq}
use dingospeed.Base.{ℕ, String, List, [], Bool, true, false, Option, some, none, if◌then◌else◌}

pub data Node : Type 0 where
  regular : List ℕ → Node
  link : String → Node

abbrev pub FileSystem : Type 0
FileSystem = String → Option Node

-- The calls that fail.
pub record Faults : Type 0 where
  pub make_blobs_dir : Bool
  pub make_files_dir : Bool
  -- os.Stat of the path of the commit, and of the path of the bytes
  pub stat_files : Bool
  pub stat_blobs : Bool
  -- os.Lstat of the path of the commit, in IsSymlink and before the link is made
  pub lstat : Bool
  pub lstat_link : Bool
  pub remove : Bool
  pub rename : Bool
  pub create : Bool
  pub symlink : Bool

-- The error of a call, and what it leaves; `true` is nil.
abbrev pub Effect : Type 0
Effect = FileSystem → Bool × FileSystem

unfoldable pub put_node : FileSystem → String → Option Node → FileSystem
put_node fs path node = λ other. if str_eq path other then node else fs other

-- os.Stat: a link is followed.
unfoldable pub node_exists : FileSystem → Option Node → Bool
node_exists fs none = false
node_exists fs (some (regular bytes)) = true
node_exists fs (some (link target)) = elim (fs target) [ none ↦ false | some node ↦ true ]

-- FileExists: any error of os.Stat is a file that does not exist.
unfoldable pub file_exists : Bool → String → FileSystem → Bool
unfolding node_exists
file_exists fails path fs = if fails then false else node_exists fs (fs path)

unfoldable pub is_link : Option Node → Bool
is_link none = false
is_link (some (regular bytes)) = false
is_link (some (link target)) = true

unfoldable pub delete_file : Bool → String → Effect
unfolding put_node
delete_file fails path fs = if fails then (false, fs) else (true, put_node fs path none)

-- os.Create empties what is there, and follows a link.
unfoldable pub create_at : FileSystem → String → Option Node → FileSystem
unfolding put_node
create_at fs path none = put_node fs path (some (regular []))
create_at fs path (some (regular bytes)) = put_node fs path (some (regular []))
create_at fs path (some (link target)) = put_node fs target (some (regular []))

unfoldable pub create_file_if_not_exist : Bool → Bool → String → Effect
unfolding file_exists create_at
create_file_if_not_exist stat_fails fails path fs =
    if file_exists stat_fails path fs
    then (true, fs)
    else if fails
    then (false, fs)
    else (true, create_at fs path (fs path))

-- A failure is printed and not returned.
unfoldable pub re_name : Bool → String → String → FileSystem → FileSystem
unfolding put_node
re_name fails src dst fs = if fails then fs else put_node (put_node fs dst (fs src)) src none

-- Lstat does not follow a link. Its error, but for a file that does not exist, is returned.
unfoldable pub create_symlink_if_not_exists : Bool → Bool → String → String → Effect
unfolding put_node
create_symlink_if_not_exists lstat_fails fails src dst fs =
    if lstat_fails then (false, fs) else elim (fs dst) [
      | some node ↦ (true, fs)
      | none ↦ if fails then (false, fs) else (true, put_node fs dst (some (link src)))
    ]

-- The next call, if the one before gave no error.
unfoldable pub and_then : Bool × FileSystem → Effect → Bool × FileSystem
and_then (true, fs) next = next fs
and_then (false, fs) next = (false, fs)

module _ (faults : Faults) (blobs_file files_path : String) where
  -- A regular file at the path of a commit is of an older version.
  unfoldable pub transfer : FileSystem → Bool × FileSystem
  unfolding file_exists delete_file re_name
  transfer fs =
      if file_exists faults.stat_blobs blobs_file fs
      then delete_file faults.remove files_path fs
      else (true, re_name faults.rename files_path blobs_file fs)

  -- When IsSymlink fails, the error that is returned is nil.
  unfoldable pub construct_links : Effect
  unfolding file_exists is_link transfer create_file_if_not_exist create_symlink_if_not_exists
      and_then
  construct_links fs =
      let make =
        create_symlink_if_not_exists faults.lstat_link faults.symlink blobs_file files_path in
      if file_exists faults.stat_files files_path fs
      then (if faults.lstat
          then (true, fs)
          else if is_link (fs files_path)
          then (true, fs)
          else and_then (transfer fs) make)
      else and_then (create_file_if_not_exist faults.stat_blobs faults.create blobs_file fs) make

  unfoldable pub construct_blobs_and_file_file : Effect
  unfolding construct_links
  construct_blobs_and_file_file fs =
      if faults.make_blobs_dir
      then (false, fs)
      else if faults.make_files_dir
      then (false, fs)
      else construct_links fs
