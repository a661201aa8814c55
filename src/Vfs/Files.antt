-- ===== src/Vfs/Files.antt =====
-- The table of kernel/fs/vfs.c as a sequence of files, each a name and a content.
use frisca_os.Prelude.{ℕ, ◌+◌, ◌*◌, ◌≤◌, ◌<◌, ◌≡◌, ◌⊎◌, List, [], length, get_or, arith}
use frisca_os.Allocator.{Allocator}
use frisca_os.CString.{Memory}
use frisca_os.CString.Text.{HasText}
use frisca_os.CString.Copy.{HasText-frame}
use frisca_os.Vfs.{Node, Vfs, empty_node, node_size, fs_file}

pub record File : Type 0 where
  pub name : List ℕ
  pub content : List ℕ

abbrev pub no_file : File
no_file = record { name = []; content = [] }

module _ (A : Allocator) (table : ℕ) where
  -- The entry `nd`, with its name at `p`, stands for the file.
  pub record FileAt (bytes : Memory) (w : A.View) (p : ℕ) (nd : Node) (f : File) : Type 0 where
    pub name : HasText bytes p f.name
    pub name_short : length f.name < 32
    pub content : HasText bytes nd.buffer f.content
    pub size : nd.length ≡ length f.content
    pub flags : nd.flags ≡ fs_file
    pub got : ℕ
    pub in_use : A.InUse w nd.buffer got
    pub fits : length f.content < got

  -- The table holds the files, in order, over an allocator that holds what `w` shows.
  pub record Represents (v : Vfs A.State) (w : A.View) (fs : List File) : Type 0 where
    pub heap : A.Holds v.heap w
    pub count : v.file_count ≡ length fs
    pub bounded : length fs ≤ 16
    pub whole : length v.nodes ≡ 16
    pub files :
        (i : ℕ)
        → i < length fs
        → FileAt v.bytes w
            (table + node_size * i)
            (get_or v.nodes i empty_node)
            (get_or fs i no_file)

  -- A string of `n` bytes at `p`, its terminator included, lies outside of the table and below the heap.
  pub record Outside (p n : ℕ) : Type 0 where
    pub apart : (p + n ≤ table) ⊎ (table + 704 ≤ p)
    pub below : p + n ≤ A.low

  -- A file stays where its bytes do.
  pub FileAt-frame :
      (bytes bytes' : Memory) (w w' : A.View) (p : ℕ) (nd : Node) (f : File)
      → (x : FileAt bytes w p nd f) → A.InUse w' nd.buffer x.got
      → ((y : ℕ) → p ≤ y → y < p + 32 → bytes' y ≡ bytes y)
      → ((y : ℕ) → nd.buffer ≤ y → y < nd.buffer + x.got → bytes' y ≡ bytes y)
      → FileAt bytes' w' p nd f
  FileAt-frame bytes bytes' w w' p nd f x used same_name same_content = record {
    name =
        HasText-frame f.name bytes bytes' p x.name
          (λ y lo hi. same_name y lo (omega (arith, x.name_short)));
    name_short = x.name_short;
    content =
        HasText-frame f.content bytes bytes' nd.buffer x.content
          (λ y lo hi. same_content y lo (omega (arith, x.fits)));
    size = x.size;
    flags = x.flags;
    got = x.got;
    in_use = used;
    fits = x.fits;
  }

  -- The table stays where bytes are written outside of it and below the heap.
  pub Represents-frame :
      (v : Vfs A.State) (bytes : Memory) (w : A.View) (fs : List File) (q n : ℕ)
      → Outside q n
      → table + 704 ≤ A.low
      → ((x : ℕ) → (x < q) ⊎ (q + n ≤ x) → bytes x ≡ v.bytes x)
      → Represents v w fs
      → Represents (record v { bytes = bytes }) w fs
  Represents-frame v bytes w fs q n o below kept r = record {
    heap = r.heap;
    count = r.count;
    bounded = r.bounded;
    whole = r.whole;
    files = λ i lt.
        let x = r.files i lt in
        let nd = get_or v.nodes i empty_node in
        let bounds = A.in_bounds v.heap w nd.buffer x.got r.heap x.in_use in
        FileAt-frame v.bytes bytes w w (table + node_size * i) nd (get_or fs i no_file) x x.in_use
          (λ y lo hi. kept y (omega (arith, o.apart, r.bounded)))
          (λ y lo hi. kept y (omega (arith, o.below, bounds)));
  }
