-- ===== src/X86/OneByte/LongMode.antt =====
-- The one-byte opcode map of src/arch/x86_64/x86_64_tables.cpp: what long mode
-- changes.
use voidwalk.Common.{[], ◌∷◌, List}
use voidwalk.X86.Types.{Write}
use voidwalk.X86.Rows.{d64, f64, inv, t64}
use voidwalk.X86.Opcode.{
  aaa, aad_ib, aam_ib, aas, bound_gv_ma, call_ap, call_jv, cbw, cmpsw_xv_yv, cwd, daa, das, dec_eax,
  dec_ebp, dec_ebx, dec_ecx, dec_edi, dec_edx, dec_esi, dec_esp, enter_iw_ib, grp1_eb_ib2, inc_eax,
  inc_ebp, inc_ebx, inc_ecx, inc_edi, inc_edx, inc_esi, inc_esp, into, iret, ja, jb, jbe, jecxz_jb,
  jl, jle, jmp_ap, jmp_jb, jmp_jv, jnb, jnl, jnle, jno, jnp, jns, jnz, jo, jp, js, jz, lds_gv_mp,
  leave, les_gv_mp, lodsw_eax_xv, loop_jb, loopnz_jb, loopz_jb, movsw_xv_yv, pop_ds, pop_eax,
  pop_ebp, pop_ebx, pop_ecx, pop_edi, pop_edx, pop_es, pop_esi, pop_esp, pop_ev, pop_ss, popa,
  popf_fv, push_cs, push_ds, push_eax, push_ebp, push_ebx, push_ecx, push_edi, push_edx, push_es,
  push_esi, push_esp, push_ib, push_iv, push_ss, pusha, pushf_fv, salc, scasw_eax_yv, stosw_yv_eax,
}

-- The encodings that long mode removes.
unfoldable pub removed_in_long_mode : List Write
removed_in_long_mode =
    inv push_es
    ∷ inv pop_es
    ∷ inv push_cs
    ∷ inv push_ss
    ∷ inv pop_ss
    ∷ inv push_ds
    ∷ inv pop_ds
    ∷ inv daa
    ∷ inv das
    ∷ inv aaa
    ∷ inv aas
    ∷ inv pusha
    ∷ inv popa
    ∷ inv bound_gv_ma
    ∷ inv grp1_eb_ib2
    ∷ inv call_ap
    ∷ inv les_gv_mp
    ∷ inv lds_gv_mp
    ∷ inv into
    ∷ inv aam_ib
    ∷ inv aad_ib
    ∷ inv salc
    ∷ inv jmp_ap
    ∷ inv inc_eax
    ∷ inv inc_ecx
    ∷ inv inc_edx
    ∷ inv inc_ebx
    ∷ inv inc_esp
    ∷ inv inc_ebp
    ∷ inv inc_esi
    ∷ inv inc_edi
    ∷ inv dec_eax
    ∷ inv dec_ecx
    ∷ inv dec_edx
    ∷ inv dec_ebx
    ∷ inv dec_esp
    ∷ inv dec_ebp
    ∷ inv dec_esi
    ∷ inv dec_edi
    ∷ []

-- The names at a 64-bit operand size.
unfoldable pub names_in_long_mode : List Write
names_in_long_mode =
    t64 cbw "CDQE"
    ∷ t64 cwd "CQO"
    ∷ t64 pushf_fv "PUSHFQ"
    ∷ t64 popf_fv "POPFQ"
    ∷ t64 movsw_xv_yv "MOVSQ"
    ∷ t64 cmpsw_xv_yv "CMPSQ"
    ∷ t64 stosw_yv_eax "STOSQ"
    ∷ t64 lodsw_eax_xv "LODSQ"
    ∷ t64 scasw_eax_yv "SCASQ"
    ∷ t64 iret "IRETQ"
    ∷ []

-- The long-mode default operand sizes.
unfoldable pub default_sizes : List Write
default_sizes =
    d64 push_eax
    ∷ d64 push_ecx
    ∷ d64 push_edx
    ∷ d64 push_ebx
    ∷ d64 push_esp
    ∷ d64 push_ebp
    ∷ d64 push_esi
    ∷ d64 push_edi
    ∷ d64 pop_eax
    ∷ d64 pop_ecx
    ∷ d64 pop_edx
    ∷ d64 pop_ebx
    ∷ d64 pop_esp
    ∷ d64 pop_ebp
    ∷ d64 pop_esi
    ∷ d64 pop_edi
    ∷ d64 push_iv
    ∷ d64 push_ib
    ∷ d64 pop_ev
    ∷ d64 pushf_fv
    ∷ d64 popf_fv
    ∷ d64 enter_iw_ib
    ∷ d64 leave
    ∷ f64 call_jv
    ∷ f64 jmp_jv
    ∷ f64 jmp_jb
    ∷ f64 loopnz_jb
    ∷ f64 loopz_jb
    ∷ f64 loop_jb
    ∷ f64 jecxz_jb
    ∷ f64 jo
    ∷ f64 jno
    ∷ f64 jb
    ∷ f64 jnb
    ∷ f64 jz
    ∷ f64 jnz
    ∷ f64 jbe
    ∷ f64 ja
    ∷ f64 js
    ∷ f64 jns
    ∷ f64 jp
    ∷ f64 jnp
    ∷ f64 jl
    ∷ f64 jnl
    ∷ f64 jle
    ∷ f64 jnle
    ∷ []
