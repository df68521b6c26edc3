-- ===== src/Vns/Main/Linux.antt =====
-- The sender of vns/vns_sender.cc with the kernel's congestion control.
use tcp_eyenet.Prelude.{
  ℕ, zero, suc, ◌≤◌, ◌≡◌, refl, sym, ap, ◌∙◌, true, false, some, List, [], ◌∷◌, ◌++◌, map,
  append-nil, append_assoc, length, arith,
}
use tcp_eyenet.Prelude.Int.{ℤ, pos}
use tcp_eyenet.Double.{Double}
use tcp_eyenet.Vns.Args.{SenderArgs, VariablesMap, linux, parse_sender_args, fill_args, choose_cong}
use tcp_eyenet.Vns.Default
use tcp_eyenet.Vns.Default.{DefaultCong, default_cong, perf_cmd, kern_version, cong_alg}
use tcp_eyenet.Vns.PacketSender.{PacketSender, Cycle, Call, Traffic, packet_sender}
use tcp_eyenet.Vns.PacketSender.Plan.{planned, plan, flows, run-Planned}
use tcp_eyenet.Vns.Transport.State.{go, ◌>>=◌}
use tcp_eyenet.Vns.Main.{Outside, ran_linux, default_flow_sender, run_linux, main}

module _ {ℓ} {W : Type ℓ} ⦃d : Double W⦄ (to_string : W → List ℕ) where
  -- The commands of a list of calls
  abbrev pub commands_of : List ℕ → List (Call W) → List (List ℕ)
  commands_of ip calls = map (λ (k : Call W). perf_cmd to_string ip k.on k.byte_switcher) calls

  -- The control after a list of calls
  abbrev after_calls : DefaultCong → List (Call W) → DefaultCong
  after_calls u calls = record u { commands = u.commands ++ commands_of u.dip calls }

  flows-after_calls :
      (p : PacketSender W) (sid : ℤ) (fid n : ℕ) (u : DefaultCong)
      (cycles : List (Cycle (Unit {0}) W))
      → n ≤ length cycles
      → flows ⦃t = default_flow_sender to_string⦄ p sid fid n u cycles
        ≡ go (after_calls u (plan p sid fid n cycles))
  unfolding Default.send_data
  flows-after_calls p sid fid zero u cycles h =
      ap (λ l. go (record u { commands = l })) (sym (append-nil u.commands))
  flows-after_calls p sid fid (suc n) u [] h = absurd (omega arith)
  flows-after_calls p sid fid (suc n) u (c ∷ cycles) h =
      let one = planned p (pos fid) sid c in
      let command = perf_cmd to_string u.dip one.on one.byte_switcher in
      flows-after_calls p sid (suc fid) n
        (Default.send_data to_string u one.on one.byte_switcher one.fid one.sid) cycles
        (omega arith)
      ∙ ap (λ l. go (record u { commands = l }))
          (append_assoc u.commands (command ∷ [])
            (commands_of u.dip (plan p sid (suc fid) n cycles)))

  main_of_args :
      (o : Outside W) (args : SenderArgs)
      → parse_sender_args o.options ≡ some args
      → args.cong ≡ linux
      → main to_string o ≡ ran_linux (run_linux to_string args o)
  unfolding main
  main_of_args o args p c = rw (p, c) refl

  -- With the option --cong=linux (or one that is unknown), an address, and samples for every cycle, the
  -- sender runs its two commands for information and then one iperf for each cycle, with the address, the
  -- size and the kind of the flow that `run` plans for it, and ends.
  pub main-linux :
      (o : Outside W) (m : VariablesMap) (ip : List ℕ) (n : ℕ)
      → o.options ≡ some m
      → m.help ≡ false
      → m.dst_ip ≡ some ip
      → choose_cong m.cong ≡ linux
      → m.cycles ≡ pos n
      → n ≤ length o.linux_cycles
      → (f : Traffic DefaultCong W) × (main to_string o ≡ ran_linux (go (f, true)))
        × (f.tcp_type.commands
            ≡ kern_version
              ∷ cong_alg
              ∷ commands_of ip (plan (packet_sender (fill_args m ip)) o.sid 1 n o.linux_cycles))
  unfolding run_linux parse_sender_args packet_sender default_cong
  main-linux o m ip n opts help dst cong cycles enough =
      let args = fill_args m ip in
      let start = default_cong args.dst_ip in
      let calls = plan (packet_sender args) o.sid 1 n o.linux_cycles in
      (
        record { tcp_type = after_calls start calls; calls = calls },
        main_of_args o args (rw (opts, help, dst) refl) cong
            ∙ ap ran_linux (
                run-Planned ⦃t = default_flow_sender to_string⦄ (packet_sender args) o.sid n start
                  o.linux_cycles cycles enough
                ∙ ap (λ x. x >>= λ v. go (record { tcp_type = v; calls = calls }, true))
                    (flows-after_calls (packet_sender args) o.sid 1 n start o.linux_cycles enough)),
        refl,
      )
