-- ===== src/Loggers.antt =====
-- log.go, plugin/rlogrus/rlogrus.go and plugin/rzap/rzap.go: the loggers. A line changes the world `W`; what
-- it formats is an `Arg`. The packages log, logrus and zap are parameters.
use regatta_go.Prelude.{List}
use regatta_go.Go.{Bytes}

module _ (W Arg : Type 0) where
  -- The interface `Logger`.
  pub record Logger : Type 0 where
    pub infof : Bytes → List Arg → W → W
    pub debugf : Bytes → List Arg → W → W
    pub warnf : Bytes → List Arg → W → W
    pub errorf : Bytes → List Arg → W → W

  -- `NoOpLogger`
  unfoldable pub no_op_logger : Logger
  no_op_logger = record {
    infof = λ s a w. w;
    debugf = λ s a w. w;
    warnf = λ s a w. w;
    errorf = λ s a w. w;
  }

  -- `PrintLogger`, over `log.Printf`.
  unfoldable pub print_logger : (Bytes → List Arg → W → W) → Logger
  print_logger printf = record { infof = printf; debugf = printf; warnf = printf; errorf = printf }

  -- `rlogrus.New`, over a logger of logrus.
  unfoldable pub rlogrus_new : Logger → Logger
  rlogrus_new ll = record {
    infof = λ s a. ll.infof s a;
    debugf = λ s a. ll.debugf s a;
    warnf = λ s a. ll.warnf s a;
    errorf = λ s a. ll.errorf s a;
  }

  -- `rzap.New`, over a logger of zap and its `Sugar`.
  unfoldable pub rzap_new : {Zap : Type 0} → (Zap → Logger) → Zap → Logger
  rzap_new sugar zl =
      let sugared = sugar zl in
      record {
        infof = λ s a. sugared.infof s a;
        debugf = λ s a. sugared.debugf s a;
        warnf = λ s a. sugared.warnf s a;
        errorf = λ s a. sugared.errorf s a;
      }
