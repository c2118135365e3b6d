-- ===== src/Storage/Filesystem/Tests.antt =====
-- Two mounted file systems, at "/" and at "/a", whose operations answer with the length of the path
-- and count their calls.
use crack_os.Base.{ℕ, suc, ◌≡◌, refl, true, some, List, [], ◌∷◌, length, ok}
use crack_os.Storage.Filesystem.{
  Filesystem, file, handles, set_handling_prefix, get_filesystem, rename,
}
use crack_os.Storage.Filesystem.Lookup.{
  Chosen, get_filesystem-Chosen, mount_all, latest_first, get_filesystem-mount_all,
}
use crack_os.Storage.Filesystem.Dispatch.{Served, get_filesystem-Served}

abbrev counting : List ℕ → Filesystem ℕ
counting prefix = record {
  handling_prefix = prefix;
  prefix_length = length prefix;
  impl_read = λ path a b c s. ok (length path, suc s);
  impl_write = λ path a b c s. ok (length path, suc s);
  impl_get_size = λ path s. ok (length path, suc s);
  impl_exists = λ path s. ok (true, suc s);
  impl_create_file = λ path s. ok (length path, suc s);
  impl_delete_file = λ path s. ok (length path, suc s);
  impl_create_directory = λ path s. ok (length path, suc s);
  impl_delete_directory = λ path s. ok (length path, suc s);
  impl_get_file_list = λ path a b s. ok (length path, suc s);
  impl_get_type = λ path s. ok (file, suc s);
  impl_rename = λ path new_path s. ok (length path, suc s);
  impl_get_file_time = λ path s. ok (length path, suc s);
  impl_set_file_time = λ path a s. ok (length path, suc s);
  impl_get_file_permissions = λ path s. ok (length path, suc s);
  impl_set_file_permissions = λ path a s. ok (length path, suc s);
  impl_get_file_owner = λ path s. ok (length path, suc s);
  impl_set_file_owner = λ path a s. ok (length path, suc s);
}

abbrev root : Filesystem ℕ
root = counting (b'/' ∷ [])

abbrev usb : Filesystem ℕ
usb = counting (b'/' ∷ b'u' ∷ [])

abbrev usb_file : List ℕ
usb_file = b'/' ∷ b'u' ∷ b'/' ∷ b'f' ∷ []

get_filesystem-Chosen_example :
    Chosen (usb ∷ root ∷ []) usb_file (get_filesystem (usb ∷ root ∷ []) usb_file)
get_filesystem-Chosen_example = get_filesystem-Chosen (usb ∷ root ∷ []) usb_file (refl, (refl, tt))

get_filesystem-mount_all_example :
    Chosen
      (set_handling_prefix root (b'/' ∷ []) ∷ latest_first ((usb, b'/' ∷ b'u' ∷ []) ∷ []) [])
      usb_file
      (get_filesystem (mount_all [] ((root, b'/' ∷ []) ∷ (usb, b'/' ∷ b'u' ∷ []) ∷ [])) usb_file)
get_filesystem-mount_all_example =
    get_filesystem-mount_all root (b'/' ∷ []) ((usb, b'/' ∷ b'u' ∷ []) ∷ []) usb_file

get_filesystem-Served_example :
    Served (usb ∷ root ∷ []) usb_file (get_filesystem (usb ∷ root ∷ []) usb_file)
get_filesystem-Served_example = get_filesystem-Served (usb ∷ root ∷ []) usb_file (refl, (refl, tt))

usb_serves : get_filesystem (usb ∷ root ∷ []) usb_file ≡ some usb
unfolding crack_os.Storage.Filesystem.get_filesystem crack_os.Storage.Filesystem.find_node
    crack_os.Storage.Filesystem.handles crack_os.Storage.Filesystem.handles_loop
usb_serves = refl
