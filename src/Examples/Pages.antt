-- ===== src/Examples/Pages.antt =====
-- The theorems on kernel/mm from the state at boot.
use ucas_oslab_project.Common.{◌≡◌, refl, List, [], ◌∷◌, arith}
use ucas_oslab_project.Kernel.{Kernel}
use ucas_oslab_project.Memory.{
  freemem_kernel, freemem_user, round_up, alloc_kernel_page, alloc_user_page,
}
use ucas_oslab_project.Memory.Pages.{
  Request, kernel_pages, user_pages, All, IsAligned, IsSeparate, serve_all, serve_all-boot,
}
use ucas_oslab_project.Examples.States.{kernel, detached}

abbrev boot : Kernel
boot = record (kernel detached) { kern_mem_curr = freemem_kernel; user_mem_curr = freemem_user }

abbrev requests : List Request
requests = kernel_pages 1 ∷ user_pages 2 ∷ kernel_pages 1 ∷ user_pages 1 ∷ []

served :
    serve_all requests boot
    ≡ record { base = 0x50501000; pages = 1 }
      ∷ record { base = 0x52500000; pages = 2 }
      ∷ record { base = 0x50502000; pages = 1 }
      ∷ record { base = 0x52502000; pages = 1 }
      ∷ []
unfolding alloc_kernel_page alloc_user_page round_up
served = refl

serve_all-boot_example :
    All IsAligned (serve_all requests boot) × IsSeparate (serve_all requests boot)
serve_all-boot_example = serve_all-boot requests boot refl refl (omega arith) (omega arith)
