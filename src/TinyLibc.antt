-- ===== src/TinyLibc.antt =====
-- tiny_libc/string.c: the user programs' copy of libs/string.c, which differs from it in its
-- `#include` line alone.
use ucas_oslab_project.Common.{ℕ, Option}
use ucas_oslab_project.Common.Int.{ℤ}
use ucas_oslab_project.LinkedList.{Ptr}
use ucas_oslab_project.Strings
use ucas_oslab_project.Strings.{Mem}

unfoldable pub memcpy : (dest src : Ptr) (len : ℕ) → Mem → Mem
memcpy = Strings.memcpy

unfoldable pub memset : (dest : Ptr) (val len : ℕ) → Mem → Mem
memset = Strings.memset

unfoldable pub bzero : (dest : Ptr) (len : ℕ) → Mem → Mem
bzero = Strings.bzero

unfoldable pub strlen : ℕ → Ptr → Mem → Option ℕ
strlen = Strings.strlen

unfoldable pub strcmp : ℕ → (str1 str2 : Ptr) → Mem → Option ℤ
strcmp = Strings.strcmp

unfoldable pub strncmp : (str1 str2 : Ptr) (n : ℕ) → Mem → ℤ
strncmp = Strings.strncmp

unfoldable pub strcpy : ℕ → (dest src : Ptr) → Mem → Option Mem
strcpy = Strings.strcpy

unfoldable pub strncpy : (dest src : Ptr) (n : ℕ) → Mem → Mem
strncpy = Strings.strncpy

unfoldable pub strcat : ℕ → (dest src : Ptr) → Mem → Option Mem
strcat = Strings.strcat
