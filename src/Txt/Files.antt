-- ===== src/Txt/Files.antt =====
-- What the store of text files takes from Boost and from the file system.
use libklio.Prelude.{Bool, String, Option, List, ◌++◌, ◌≡◌, ◌≢◌}
use libklio.Time.{Timestamp, Double}

-- `append` opens a file with `std::ofstream::app` and writes lines, and `lines` reads them back.
pub record Disk (F : Type 0) : Type 0 where
  pub exists : String → F → Bool
  pub create_directory : String → F → Bool × F
  pub remove_all : String → F → F
  pub append : String → List String → F → F
  pub lines : String → F → List String

-- A file that exists, opened for appending, holds its lines and the new ones after them.
pub record IsAppending {F : Type 0} (disk : Disk F) : Type 0 where
  pub appended :
      (path : String) (new : List String) (f : F)
      → disk.lines path (disk.append path new f) ≡ disk.lines path f ++ new
  pub others :
      (path other : String) (new : List String) (f : F)
      → other ≢ path
      → disk.lines other (disk.append path new f) ≡ disk.lines other f

-- The tokenizer and the conversions between texts and numbers; `none` is `bad_lexical_cast`.
pub record Text : Type 0 where
  pub tokenize : String → List String
  pub long_to_string : Timestamp → String
  pub double_to_string : Double → String
  pub long_of_string : String → Option Timestamp
  pub double_of_string : String → Option Double
  pub to_lower : String → String
  pub contains : String → String → Bool
