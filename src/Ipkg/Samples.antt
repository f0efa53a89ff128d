-- ===== src/Ipkg/Samples.antt =====
-- One package, in an empty root file system and beside files of the user's own.
use smart_build.Prelude.{
  String, Bool, false, List, [], ◌∷◌, ◌++◌, Option, none, some, ◌≡◌, refl, if◌then◌else◌, arith,
  All, true,
}
use smart_build.Prelude.Errors.{Result, ok, Outcome}
use smart_build.Prelude.Codes.{Text, Bytes, codes, same, same_all, lstrip, rstrip}
use smart_build.Prelude.Codes.Lines.{splitlines, lines_from, split_colon, join}
use smart_build.Prelude.Codes.Decimal.{numeral, decimal, parse_int, digits_value}
use smart_build.Prelude.Codes.Dict.{lookup, insert, insert_all}
use smart_build.Ipkg.Base.{IpkgError}
use smart_build.Ipkg.Control.RoundTrip.{pairs}
use smart_build.Ipkg.Toy.{toy, toy-IsFaithful, pack, unpack}
use smart_build.Ipkg.Ar.{write_members, write_ar, read_payload, read_member, read_members, read_ar}
use smart_build.Ipkg.Paths.{
  split_slash, path_parts, as_posix, check_parts, safe_relative_path, data_member_name,
  package_file_member_name,
}
use smart_build.Ipkg.Control.{
  Fields, get, field_lines, control_text, control_keys, parse_lines, parse_control,
  set_all_defaults,
}
use smart_build.Ipkg.Files.{
  Place, absent, regular, Files, fine, set, make_directory, make_directories, write_bytes, parent,
  base_name, relative_to,
}
use smart_build.Ipkg.Database.{Database}
use smart_build.Ipkg.Control.Values.{HasValues, parse_control-HasValues}
use smart_build.Ipkg.Ar.RoundTrip.{read_ar-write_ar}
use smart_build.Ipkg.Ar.Total.{IsArchiveError, read_ar_total}
use smart_build.Ipkg.Package.RoundTrip.{read_control_fields-create_ipkg}
use smart_build.Ipkg.Install.{
  Host, InstalledFile, safe_destination, install_file, install_regular, install_member,
  install_members, opened, install_ipkg,
}
use smart_build.Ipkg.Install.Outside.{install_ipkg_elsewhere}
use smart_build.Ipkg.Install.Recorded.{IsTrue, install_ipkg-IsTrue}
use smart_build.Ipkg.Runtime.{System, install_ipkg_runtime}
use smart_build.Ipkg.Package.{
  PackageFile, data_entries, data_archive, control_archive, create_ipkg, control_file, get_member,
  read_control_fields,
}

abbrev hello : Fields
hello =
    (codes "Package", codes "hello")
    ∷ (codes "Version", codes "1.0")
    ∷ (codes "Architecture", codes "qemu")
    ∷ (codes "Depends", [])
    ∷ (codes "Provides", codes "hello")
    ∷ (codes "Description", codes "a greeting")
    ∷ []

abbrev hello_files : List PackageFile
hello_files =
    record { source = codes "out/hello"; path = codes "/bin/hello"; mode = 0o755 }
    ∷ record { source = codes "out/hello.txt"; path = codes "/share/hello.txt"; mode = 0o644 }
    ∷ []

abbrev sources : Text → Option Bytes
sources source =
    if same source (codes "out/hello")
    then some (codes "ELF")
    else if same source (codes "out/hello.txt")
    then some (codes "hi there\n")
    else none

abbrev control_bytes : Bytes
control_bytes =
    0o644
    ∷ 9
    ∷ 97
    ∷ codes
        "./controlPackage: hello\nVersion: 1.0\nArchitecture: qemu\nDepends: \nProvides: hello\nDescription: a greeting\n"

abbrev payload_bytes : Bytes
payload_bytes =
    (0o755 ∷ 11 ∷ 3 ∷ codes "./bin/helloELF")
    ++ (0o644 ∷ 17 ∷ 9 ∷ codes "./share/hello.txthi there\n")

abbrev package_bytes : Bytes
package_bytes =
    codes
      "!<arch>\ndebian-binary/  0           0     0     100644  4         `\n2.0\ncontrol.tar.gz/ 0           0     0     100644  109       `\n"
    ++ (control_bytes
        ++ (codes "\ndata.tar.gz/    0           0     0     100644  46        `\n"
            ++ payload_bytes))

created : create_ipkg toy sources hello hello_files ≡ ok package_bytes
unfolding create_ipkg control_archive control_text field_lines get lookup data_archive data_entries
    package_file_member_name data_member_name safe_relative_path check_parts path_parts split_slash
    as_posix join toy pack write_ar write_members numeral decimal same
created = refl

abbrev host : Host
host = record {
  resolve = λ place. place;
  faults = λ place. fine;
  checksum = λ payload mode. mode ∷ payload;
  leads = λ files place. true;
}

abbrev rootfs : Place
rootfs = codes "r" ∷ []

abbrev empty : Files
empty place = absent

abbrev hello_record : String → Text → InstalledFile
hello_record path checksum = record {
  path = codes path;
  owner = codes "hello";
  version = codes "1.0";
  source = codes "hello.ipk";
  checksum = checksum;
}

abbrev hello_records : List InstalledFile
hello_records =
    hello_record "bin/hello" (0o755 ∷ codes "ELF")
    ∷ hello_record "share/hello.txt" (0o644 ∷ codes "hi there\n")
    ∷ []

installed :
    (install_ipkg host rootfs toy (codes "hello.ipk") package_bytes empty).1 ≡ ok hello_records
unfolding install_ipkg opened read_control_fields read_ar read_members read_member read_payload
    parse_int digits_value lstrip rstrip same insert lookup control_file get_member toy unpack
    parse_control splitlines lines_from parse_lines split_colon set_all_defaults make_directories
    make_directory set same_all install_members install_member safe_destination safe_relative_path
    check_parts path_parts split_slash base_name parent relative_to install_regular install_file
    write_bytes as_posix join get
installed = refl

hello_values : HasValues hello
unfolding parse_control splitlines lines_from parse_lines split_colon set_all_defaults insert lookup
    same lstrip
hello_values =
    parse_control-HasValues
      (codes
        "Package: hello\nVersion: 1.0\nArchitecture: qemu\nDepends: \nProvides: hello\nDescription: a greeting\n")
      hello refl

read_ar-write_ar_example :
    (archive : Bytes) × (write_ar ((codes "one", codes "1") ∷ (codes "two", codes "22") ∷ [])
      ≡ ok archive)
    × (read_ar archive
        ≡ ok (insert_all [] ((codes "one", codes "1") ∷ (codes "two", codes "22") ∷ [])))
unfolding rstrip
read_ar-write_ar_example =
    read_ar-write_ar ((codes "one", codes "1") ∷ (codes "two", codes "22") ∷ []) (
      record { ascii = refl; fits = omega arith; bare = refl; small = omega arith },
      (record { ascii = refl; fits = omega arith; bare = refl; small = omega arith }, tt),
    )

-- a container that breaks off inside the header of its first member
read_ar_total_example :
    Outcome IsArchiveError (λ _. Unit {0}) (read_ar (codes "!<arch>\ndebian-binary/  0"))
read_ar_total_example = read_ar_total (codes "!<arch>\ndebian-binary/  0")

read_control_fields-create_ipkg_example :
    read_control_fields toy package_bytes ≡ ok (pairs hello control_keys)
unfolding get lookup same lstrip
read_control_fields-create_ipkg_example =
    read_control_fields-create_ipkg toy sources hello hello_files package_bytes toy-IsFaithful
      (
        hello_values (codes "Package"),
        (
          hello_values (codes "Version"),
          (
            hello_values (codes "Architecture"),
            (
              hello_values (codes "Depends"),
              (hello_values (codes "Provides"), (hello_values (codes "Description"), tt)),
            ),
          ),
        ),
      )
      (omega arith) created

install_ipkg-IsTrue_example :
    All
      (IsTrue host rootfs (install_ipkg host rootfs toy (codes "hello.ipk") package_bytes empty).0)
      hello_records
install_ipkg-IsTrue_example =
    install_ipkg-IsTrue host rootfs toy (codes "hello.ipk") package_bytes empty installed

-- A file of the user's own that the package would overwrite.
abbrev own : Files
own place =
    if same_all place (codes "r" ∷ codes "bin" ∷ codes "hello" ∷ [])
    then regular (codes "mine") 0o755
    else absent

install_ipkg_elsewhere_example :
    (install_ipkg host rootfs toy (codes "hello.ipk") package_bytes own).0
      (codes "etc" ∷ codes "passwd" ∷ [])
    ≡ own (codes "etc" ∷ codes "passwd" ∷ [])
unfolding relative_to same
install_ipkg_elsewhere_example =
    install_ipkg_elsewhere host rootfs toy (codes "hello.ipk") package_bytes own
      (codes "etc" ∷ codes "passwd" ∷ []) refl refl

abbrev never : Text → Bool
never file = false

abbrev no_packages : Database
no_packages = record { status = none; lists = λ name. none }

abbrev system : System
system = record { files = empty; db = no_packages }

abbrev done : System × Result IpkgError (List InstalledFile)
done = install_ipkg_runtime host rootfs never toy (codes "hello.ipk") package_bytes system
