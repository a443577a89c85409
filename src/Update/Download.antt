-- ===== src/Update/Download.antt =====
-- `Download` of client/internal/update/update.go, over a file system that is a map of paths to contents.
-- The copy fails only where the body breaks off, and closing the file succeeds.
use local_dictation.Prelude.{
  ℕ, ◌+◌, ◌^◌, Bool, true, not, ◌&&◌, ◌||◌, map, Option, none, some, leb, ltb, ◌==◌, if◌then◌else◌,
  ◌⊎◌, inl, inr, length, take,
}
use local_dictation.Prelude.Int.{ℤ, pos, negsuc}
use local_dictation.Text.{Text, codes, beq, has_prefix}
use local_dictation.Update.Manifest.{Bytes, Artifact}

abbrev pub Disk : Type 0
Disk = Text → Option Bytes

abbrev pub store : Text → Bytes → Disk → Disk
store path content d q = if beq q path then some content else d q

abbrev pub remove : Text → Disk → Disk
remove path d q = if beq q path then none else d q

-- What a request answers: no response, or a status and a body, which may break off.
pub data Reply : Type 0 where
  no_reply : Text → Reply
  reply : ℕ → Bytes → Bool → Reply

-- What the outside answers in one call; `target` is the artifact's name in the directory, `hash` is
-- SHA-256 in hexadecimal.
pub record World : Type 0 where
  pub get : Text → Reply
  pub make_directory : Option Text
  pub create_temporary : Text ⊎ Text
  pub target : Text
  pub hash : Bytes → Text
  pub rename : Option Text

pub data Trouble : Type 0 where
  not_https : Trouble
  unreachable : Text → Trouble
  bad_status : ℕ → Trouble
  no_directory no_temporary : Text → Trouble
  broken_off : Trouble
  wrong_size : ℕ → Trouble
  wrong_hash : Text → Trouble
  not_installed : Text → Trouble

abbrev pub Outcome : Type 0
Outcome = Disk × (Text ⊎ Trouble)

-- `strings.EqualFold(a, b)` for a text of hexadecimal digits, whose letters fold to no others.
abbrev pub fold : ℕ → ℕ
fold c = if leb 65 c && leb c 90 then c + 32 else c

abbrev pub equal_fold : Text → Text → Bool
equal_fold a b = beq (map fold a) (map fold b)

-- In `Download`, the limit of the copy.
abbrev pub limit : ℤ → ℕ
limit (pos n) = if n == 0 then 2 ^ 31 else n
limit (negsuc n) = 2 ^ 31

-- In `Download`, the test of the size that the manifest states.
abbrev pub sized : ℤ → ℕ → Bool
sized (pos n) written = n == 0 || written == n
sized (negsuc n) written = true

module _ (w : World) (a : Artifact) where
  -- In `Download`, after the hash has been found right; the temporary file is removed at the end.
  abbrev pub installed : Text → Bytes → Disk → Option Text → Outcome
  installed temporary content d (some e) = (remove temporary d, inr (not_installed e))
  installed temporary content d none =
      (remove temporary (store w.target content (remove temporary d)), inl w.target)

  -- In `Download`, after the copy into the temporary file.
  abbrev pub copied : Text → Bytes → Disk → Outcome
  copied temporary content d =
      if not (sized a.size (length content))
      then (remove temporary d, inr (wrong_size (length content)))
      else if not (equal_fold (w.hash content) a.sha256)
      then (remove temporary d, inr (wrong_hash (w.hash content)))
      else installed temporary content d w.rename

  -- In `Download`, from the temporary file on.
  abbrev pub fetched : Bytes → Bool → Disk → Text ⊎ Text → Outcome
  fetched body broken d (inr e) = (d, inr (no_temporary e))
  fetched body broken d (inl temporary) =
      let content = take (limit a.size) body in
      if broken && ltb (length body) (limit a.size)
      then (remove temporary (store temporary content d), inr broken_off)
      else copied temporary content (store temporary content d)

  -- In `Download`, from the directory on.
  abbrev pub prepared : Bytes → Bool → Disk → Option Text → Outcome
  prepared body broken d (some e) = (d, inr (no_directory e))
  prepared body broken d none = fetched body broken d w.create_temporary

  -- In `Download`, from the response on.
  abbrev pub answered : Disk → Reply → Outcome
  answered d (no_reply e) = (d, inr (unreachable e))
  answered d (reply status body broken) =
      if status == 200
      then prepared body broken d w.make_directory
      else (d, inr (bad_status status))

  -- `Download`
  unfoldable pub download : Disk → Outcome
  download d =
      if has_prefix a.url (codes "https://") then answered d (w.get a.url) else (d, inr not_https)
